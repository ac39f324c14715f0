-- ===== src/Tui/Detail.antt =====
-- crates/tcpvisr-tui/src/detail.rs: sequence numbers over time on a grid of cells. The inner `none`
-- is a rectangle below the minimum, the outer one a panic. Arithmetic on i64 wraps.
pub mod Picture
use tcp_visr.Base.{
  ℕ, zero, suc, ◌+◌, ◌-◌, ◌*◌, ◌/◌, min, Bool, true, false, ◌&&◌, ◌||◌, ltb, leb, ◌==◌,
  if◌then◌else◌, Option, none, some, List, [], ◌∷◌, bind, map_some, saturating_sub, ℤ, pos, negsuc,
  ◌+ℤ◌, ◌-ℤ◌, wrap_i64,
}
use tcp_visr.Core.Time.{Nanos}
use tcp_visr.Core.Metric.{SampleDir}
use tcp_visr.Engine.Timeline.{SeqKind, SeqSample, data_mark, sack_mark}
use tcp_visr.Tui.Grid.{loop, blank, put, idx, draw_cursor, collect_marks}
use tcp_visr.Tui.Plot.{min_w, min_h, eq_dir, clamp_u16, scale_to, cursor_glyph}
use tcp_visr.Tui.Transport.{clamp}

abbrev pub data_glyph : ℕ
data_glyph = 0x23

abbrev pub ooo_glyph : ℕ
ooo_glyph = 0x6f

abbrev pub retrans_glyph : ℕ
retrans_glyph = 0xb7

abbrev pub sack_glyph : ℕ
sack_glyph = 0x254e

pub record SeqMark : Type 0 where
  pub seq_col : ℕ
  pub seq_row : ℕ
  pub seq_glyph : ℕ

pub record SeqPlot : Type 0 where
  pub seq_width : ℕ
  pub seq_height : ℕ
  pub max_rel : ℤ
  pub seq_span : Nanos × Nanos
  pub seq_cursor : ℕ
  pub seq_marks : List SeqMark

-- The priority of a kind, where the higher wins a cell, and its glyph. A data mark holds whether it
-- is a retransmission and whether it is out of order.
unfoldable pub kind_glyph : SeqKind → ℕ × ℕ
kind_glyph (data_mark true _) = (3, retrans_glyph)
kind_glyph sack_mark = (2, sack_glyph)
kind_glyph (data_mark false true) = (1, ooo_glyph)
kind_glyph (data_mark false false) = (0, data_glyph)

abbrev pub col_of : Nanos → Nanos → ℕ → ℕ → ℕ
col_of t t0 span_t width = scale_to (saturating_sub t t0) span_t width

-- The division of an i128 goes towards zero, and a negative row does not fit a u16.
abbrev pub below_zero : ℕ → ℕ → ℕ
below_zero quotient top = if quotient == 0 then min 0 top else top

unfoldable pub row_of : ℤ → ℤ → ℕ → ℕ
row_of y (negsuc n) height = 0
row_of (pos y) (pos max_rel) height = scale_to y max_rel height
row_of (negsuc y) (pos max_rel) height =
    if max_rel == 0 then 0 else below_zero (suc y * (height - 1) / max_rel) (height - 1)

abbrev pub leq_ℤ : ℤ → ℤ → Bool
leq_ℤ (pos a) (pos b) = leb a b
leq_ℤ (pos a) (negsuc b) = false
leq_ℤ (negsuc a) (pos b) = true
leq_ℤ (negsuc a) (negsuc b) = leb b a

-- `min().unwrap_or(0)` of the positions, over the samples of a direction.
abbrev pub least_from : ℤ → List SeqSample → SampleDir → ℤ
least_from m [] focus = m
least_from m (s ∷ ss) focus =
    least_from (if eq_dir s.dir focus && leq_ℤ s.rel m then s.rel else m) ss focus

abbrev pub base_of : List SeqSample → SampleDir → ℤ
base_of [] focus = pos 0
base_of (s ∷ ss) focus =
    let rest = base_of ss focus in if eq_dir s.dir focus then least_from s.rel ss focus else rest

abbrev pub sub_i64 : ℤ → ℤ → ℤ
sub_i64 a b = wrap_i64 (a -ℤ b)

-- Where a sample ends, from the base.
abbrev pub end_of : ℤ → SeqSample → ℤ
end_of base s = wrap_i64 (sub_i64 s.rel base +ℤ pos s.len)

abbrev pub greatest_from : ℤ → ℤ → List SeqSample → SampleDir → ℤ
greatest_from base m [] focus = m
greatest_from base m (s ∷ ss) focus =
    greatest_from base (if eq_dir s.dir focus && leq_ℤ m (end_of base s) then end_of base s else m)
      ss focus

-- `max().unwrap_or(0)` of the ends.
abbrev pub max_rel_of : ℤ → List SeqSample → SampleDir → ℤ
max_rel_of base [] focus = pos 0
max_rel_of base (s ∷ ss) focus =
    let rest = max_rel_of base ss focus in
    if eq_dir s.dir focus then greatest_from base (end_of base s) ss focus else rest

-- What `project` fixes before it draws.
pub record SeqGeom : Type 0 where
  pub focus : SampleDir
  pub t0 : Nanos
  pub span_t : ℕ
  pub base : ℤ
  pub top : ℤ
  pub width : ℕ
  pub height : ℕ
  pub cursor : Nanos

abbrev pub seq_geom : List SeqSample → SampleDir → Nanos × Nanos → Nanos → ℕ → ℕ → SeqGeom
seq_geom series focus x_span cursor width height = record {
  focus = focus;
  t0 = x_span.0;
  span_t = saturating_sub x_span.1 x_span.0;
  base = base_of series focus;
  top = max_rel_of (base_of series focus) series focus;
  width = width;
  height = height;
  cursor = cursor;
}

unfoldable pub seq_col_of : SeqGeom → SeqSample → ℕ
seq_col_of g s = col_of s.t g.t0 g.span_t g.width

unfoldable pub seq_row_of : SeqGeom → SeqSample → ℕ
seq_row_of g s = row_of (sub_i64 s.rel g.base) g.top g.height

abbrev pub revealed : SeqGeom → SeqSample → Bool
revealed g s = eq_dir s.dir g.focus && leb s.t g.cursor

-- A cell keeps what is at least as salient.
abbrev pub salient : ℕ × ℕ → Option (ℕ × ℕ) → Option (ℕ × ℕ)
salient m none = some m
salient m (some k) = if leb m.0 k.0 then some k else some m

abbrev pub draw_sample :
    SeqGeom → SeqSample → List (Option (ℕ × ℕ)) → Option (List (Option (ℕ × ℕ)))
draw_sample g s grid =
    if revealed g s
    then put grid (idx g.width (seq_col_of g s) (seq_row_of g s)) (salient (kind_glyph s.kind))
    else some grid

abbrev pub seq_mark : ℕ → ℕ → ℕ × ℕ → SeqMark
seq_mark c r m = record { seq_col = c; seq_row = r; seq_glyph = m.1 }

abbrev pub seq_plot : SeqGeom → Nanos × Nanos → ℕ → List SeqMark → SeqPlot
seq_plot g x_span at ms = record {
  seq_width = g.width;
  seq_height = g.height;
  max_rel = g.top;
  seq_span = x_span;
  seq_cursor = at;
  seq_marks = ms;
}

abbrev pub seq_draw_at :
    SeqGeom → Nanos × Nanos → List (Option (ℕ × ℕ)) → ℕ → Option (Option SeqPlot)
seq_draw_at g x_span grid at =
    bind
      (λ out.
        map_some (λ ms. some (seq_plot g x_span at ms))
          (collect_marks seq_mark out g.width g.height))
      (draw_cursor (λ r. (0, cursor_glyph)) g.width g.height at grid)

-- On a geometry, where the rectangle is not too small.
unfoldable pub project_seq_on : SeqGeom → List SeqSample → Nanos × Nanos → Option (Option SeqPlot)
project_seq_on g series x_span =
    bind
      (λ grid.
        bind (λ ct. seq_draw_at g x_span grid (col_of ct g.t0 g.span_t g.width))
          (clamp g.cursor x_span.0 x_span.1))
      (loop (draw_sample g) series (blank (g.width * g.height)))

-- `project` of detail.rs
unfoldable pub project_seq :
    List SeqSample → SampleDir → Nanos × Nanos → Nanos → ℕ → ℕ → Option (Option SeqPlot)
project_seq series focus x_span cursor width height =
    let drawn = project_seq_on (seq_geom series focus x_span cursor width height) series x_span in
    if ltb width min_w || ltb height min_h then some none else drawn
