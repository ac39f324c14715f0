-- ===== src/Tui/Plot.antt =====
-- The geometry that the charts of crates/tcpvisr-tui share: `Geom` of inflight.rs, which rtt.rs and
-- throughput.rs repeat with another name for the top of the value axis and another sample.
pub mod Tallest
pub mod Place
use tcp_visr.Base.{
  ℕ, zero, suc, ◌+◌, ◌-◌, ◌*◌, ◌/◌, min, Bool, true, false, ◌&&◌, ltb, leb, ◌==◌, if◌then◌else◌,
  Option, none, some, List, [], ◌∷◌, get_elem?, set, bind, map_some, max, saturating_sub,
}
use tcp_visr.Core.Time.{Nanos}
use tcp_visr.Core.Metric.{SampleDir, origin_to_responder, responder_to_origin}
use tcp_visr.Tui.Grid.{loop, blank, put, put_on, idx, draw_cursor, collect_marks}
use tcp_visr.Tui.Transport.{clamp}

abbrev pub min_w : ℕ
min_w = 8

abbrev pub min_h : ℕ
min_h = 3

-- `u16::try_from(n).unwrap_or(top).min(top)`
abbrev pub clamp_u16 : ℕ → ℕ → ℕ
clamp_u16 n top = min (if ltb 65535 n then top else n) top

-- Where a division by zero is kept off by the test before it.
unfoldable pub scale_to : ℕ → ℕ → ℕ → ℕ
scale_to v top size = if top == 0 then 0 else clamp_u16 (v * (size - 1) / top) (size - 1)

-- The derived `==` of `SampleDir`.
abbrev pub eq_dir : SampleDir → SampleDir → Bool
eq_dir origin_to_responder origin_to_responder = true
eq_dir responder_to_origin responder_to_origin = true
eq_dir _ _ = false

-- `top` is `max_bytes`, `max_rtt` or `max_rate`.
pub record Geom : Type 0 where
  pub focus : SampleDir
  pub t0 : Nanos
  pub span_t : ℕ
  pub top : ℕ
  pub width : ℕ
  pub height : ℕ
  pub cursor : Nanos

unfoldable pub col : Geom → Nanos → ℕ
col g t = scale_to (saturating_sub t g.t0) g.span_t g.width

unfoldable pub row : Geom → ℕ → ℕ
row g v = scale_to v g.top g.height

-- The greater of a peak and a row.
abbrev pub taller : ℕ → Option ℕ → Option ℕ
taller r none = some r
taller r (some e) = if ltb e r then some r else some e

-- A mark, in the cell of its column and row.
pub record Mark {ℓ} (S : Type ℓ) : Type ℓ where
  pub col_at : ℕ
  pub row_at : ℕ
  pub glyph : ℕ
  pub series : S

-- A resolved plot over a rectangle of cells.
pub record Plot {ℓ} (S : Type ℓ) : Type ℓ where
  pub plot_width : ℕ
  pub plot_height : ℕ
  pub max_value : ℕ
  pub x_span : Nanos × Nanos
  pub cursor_at : ℕ
  pub marks : List (Mark S)

-- `max().unwrap_or(0)`
abbrev pub max_of : List ℕ → ℕ
max_of [] = 0
max_of (v ∷ vs) = max v (max_of vs)

-- What the charts read of a sample: its direction, its time and the value to plot.
pub record Reader {ℓ} (A : Type ℓ) : Type ℓ where
  pub dir_of : A → SampleDir
  pub time_of : A → Nanos
  pub value_of : A → ℕ

module _ {ℓ} {S : Type ℓ} where
  -- The peaks of the columns from `c` on.
  unfoldable pub place_from :
      Geom → S → ℕ → ℕ → List (Option ℕ) → List (Option (Mark S)) → Option (List (Option (Mark S)))
  place_from g series glyph c [] grid = some grid
  place_from g series glyph c (none ∷ ps) grid = place_from g series glyph (suc c) ps grid
  place_from g series glyph c (some r ∷ ps) grid =
      let at = if ltb 65535 c then g.width - 1 else c in
      bind (place_from g series glyph (suc c) ps) (
        put grid (idx g.width at r)
          (λ _. some (record { col_at = at; row_at = r; glyph = glyph; series = series })))

module _ {ℓ} {A : Type ℓ} (reader : Reader A) where
  -- In the focus direction, by the cursor.
  abbrev pub shown : Geom → A → Bool
  shown g s = eq_dir (reader.dir_of s) g.focus && leb (reader.time_of s) g.cursor

  abbrev pub raise_peak : Geom → A → List (Option ℕ) → Option (List (Option ℕ))
  raise_peak g s peak =
      if shown g s
      then put peak (col g (reader.time_of s)) (taller (row g (reader.value_of s)))
      else some peak

  unfoldable pub peaks : Geom → List A → Option (List (Option ℕ))
  peaks g samples = loop (raise_peak g) samples (blank g.width)

  module _ {κ} {S : Type κ} where
    unfoldable pub place_series :
        Geom → List A → S → ℕ → List (Option (Mark S)) → Option (List (Option (Mark S)))
    place_series g samples series glyph grid =
        bind (λ peak. place_from g series glyph 0 peak grid) (peaks g samples)

-- `'\u{250a}'`
abbrev pub cursor_glyph : ℕ
cursor_glyph = 0x250a

-- The column of the cursor, where the span is in order.
abbrev pub cursor_col : Geom → ℕ → ℕ
cursor_col g t1 = col g (min (max g.cursor g.t0) t1)

module _ {ℓ} {S : Type ℓ} where
  abbrev pub cursor_mark : S → ℕ → ℕ → Mark S
  cursor_mark series c r = record { col_at = c; row_at = r; glyph = cursor_glyph; series = series }

  -- With the cursor drawn: its column, and the marks.
  abbrev pub draw_at : Geom → S → List (Option (Mark S)) → ℕ → Option (ℕ × List (Mark S))
  draw_at g series grid at =
      bind (λ out. map_some (λ ms. (at, ms)) (collect_marks (λ c r m. m) out g.width g.height))
        (draw_cursor (cursor_mark series at) g.width g.height at grid)

  -- The cursor's column and the collection, which end each `project`.
  unfoldable pub finish_plot : Geom → S → ℕ → List (Option (Mark S)) → Option (ℕ × List (Mark S))
  finish_plot g series t1 grid =
      bind (λ ct. draw_at g series grid (col g ct)) (clamp g.cursor g.t0 t1)

  abbrev pub as_plot : Geom → Nanos × Nanos → ℕ × List (Mark S) → Plot S
  as_plot g x_span drawn = record {
    plot_width = g.width;
    plot_height = g.height;
    max_value = g.top;
    x_span = x_span;
    cursor_at = drawn.0;
    marks = drawn.1;
  }
