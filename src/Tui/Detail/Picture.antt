-- ===== src/Tui/Detail/Picture.antt =====
-- The sequence numbers that detail.rs projects, against a picture described cell by cell.
use tcp_visr.Base.{
  ◌≡◌, refl, arith, ℕ, ◌*◌, ◌≤◌, ◌<◌, min, max, Bool, true, false, ◌&&◌, ◌==◌, leb, ltb,
  if◌then◌else◌, Option, none, some, List, [], ◌∷◌, ℤ, pos, negsuc, Bool-cases, inl, inr,
}
use tcp_visr.Core.Time.{Nanos}
use tcp_visr.Core.Metric.{SampleDir}
use tcp_visr.Engine.Timeline.{SeqSample}
use tcp_visr.Tui.Grid.{loop, blank}
use tcp_visr.Tui.Grid.Shows.{
  Shows, Shows-same, blank-Shows, put-Shows, with_cursor, draw_cursor-Shows,
}
use tcp_visr.Tui.Grid.Picture.{picture, collect_marks-picture}
use tcp_visr.Tui.Plot.{cursor_glyph}
use tcp_visr.Tui.Plot.Tallest.{scale_to-lt}
use tcp_visr.Tui.Transport.{clamp}
use tcp_visr.Tui.Detail.{
  SeqPlot, kind_glyph, col_of, row_of, SeqGeom, seq_geom, seq_col_of, seq_row_of, revealed, salient,
  draw_sample, seq_mark, seq_plot, project_seq_on, project_seq,
}

row_of-lt : (y top : ℤ) (height : ℕ) → 0 < height → row_of y top height < height
unfolding row_of
row_of-lt y (negsuc n) height h = h
row_of-lt (pos y) (pos m) height h = scale_to-lt y m height h
row_of-lt (negsuc y) (pos m) height h = ground arith

-- Of two marks the more salient, the first one of two alike.
abbrev stronger : Option (ℕ × ℕ) → Option (ℕ × ℕ) → Option (ℕ × ℕ)
stronger none q = q
stronger (some a) none = some a
stronger (some a) (some b) = if leb b.0 a.0 then some a else some b

stronger-none : (p : Option (ℕ × ℕ)) → p ≡ stronger p none
stronger-none none = refl
stronger-none (some a) = refl

stronger-salient :
    (p q : Option (ℕ × ℕ)) (m : ℕ × ℕ) → stronger (salient m p) q ≡ stronger p (stronger (some m) q)
stronger-salient none q m = refl
stronger-salient (some a) none m = ground arith
stronger-salient (some a) (some b) m = ground arith

module _ (g : SeqGeom) where
  abbrev stands_at : SeqSample → ℕ → ℕ → Bool
  stands_at s c r = revealed g s && ((seq_col_of g s == c) && (seq_row_of g s == r))

  -- The most salient of the samples revealed in a cell, the first one of those alike.
  abbrev pub most_salient : List SeqSample → ℕ → ℕ → Option (ℕ × ℕ)
  most_salient [] c r = none
  most_salient (s ∷ ss) c r =
      let rest = most_salient ss c r in
      if stands_at s c r then stronger (some (kind_glyph s.kind)) rest else rest

  abbrev drawn : (ℕ → ℕ → Option (ℕ × ℕ)) → SeqSample → ℕ → ℕ → Option (ℕ × ℕ)
  drawn f s c r = if stands_at s c r then salient (kind_glyph s.kind) (f c r) else f c r

  draw_sample-Shows :
      (s : SeqSample) (f : ℕ → ℕ → Option (ℕ × ℕ)) (grid : List (Option (ℕ × ℕ)))
      → 0 < g.width
      → 0 < g.height
      → Shows g.width g.height f grid
      → (out : List (Option (ℕ × ℕ))) × (draw_sample g s grid ≡ some out)
        × Shows g.width g.height (drawn f s) out
  unfolding seq_col_of seq_row_of
  draw_sample-Shows s f grid hw hh shows = elim (Bool-cases (revealed g s)) [
    | inr k ↦ (grid, rw k refl, Shows-same g.width g.height f _ grid (λ c r hc hr. rw k refl) shows)
    | inl k ↦
        let (out, e, h) =
          put-Shows g.width g.height f grid (seq_col_of g s) (seq_row_of g s)
            (salient (kind_glyph s.kind)) shows (scale_to-lt _ g.span_t g.width hw)
            (row_of-lt _ g.top g.height hh) in
        (out, rw k e, Shows-same g.width g.height _ _ out (λ c r hc hr. rw k refl) h)
  ]

  drawn-stronger :
      (f : ℕ → ℕ → Option (ℕ × ℕ)) (s : SeqSample) (ss : List SeqSample) (c r : ℕ)
      → stronger (drawn f s c r) (most_salient ss c r)
        ≡ stronger (f c r) (most_salient (s ∷ ss) c r)
  drawn-stronger f s ss c r = elim (Bool-cases (stands_at s c r)) [
    | inl k ↦ rw k (stronger-salient (f c r) (most_salient ss c r) (kind_glyph s.kind))
    | inr k ↦ rw k refl
  ]

  draw_all-Shows :
      (ss : List SeqSample) (f : ℕ → ℕ → Option (ℕ × ℕ)) (grid : List (Option (ℕ × ℕ)))
      → 0 < g.width
      → 0 < g.height
      → Shows g.width g.height f grid
      → (out : List (Option (ℕ × ℕ))) × (loop (draw_sample g) ss grid ≡ some out)
        × Shows g.width g.height (λ c r. stronger (f c r) (most_salient ss c r)) out
  unfolding loop
  draw_all-Shows [] f grid hw hh shows =
      (grid, refl, Shows-same g.width g.height f _ grid (λ c r hc hr. stronger-none (f c r)) shows)
  draw_all-Shows (s ∷ ss) f grid hw hh shows =
      let (mid, e, h) = draw_sample-Shows s f grid hw hh shows in
      let (out, k, m) = draw_all-Shows ss (drawn f s) mid hw hh h in
      (out, rw e k, Shows-same g.width g.height _ _ out (λ c r hc hr. drawn-stronger f s ss c r) m)

  abbrev pub seq_cursor_col : ℕ → ℕ
  seq_cursor_col t1 = col_of (min (max g.cursor g.t0) t1) g.t0 g.span_t g.width

  -- What each cell shows.
  abbrev pub seq_cells : List SeqSample → Nanos → ℕ → ℕ → Option (ℕ × ℕ)
  seq_cells series t1 =
      with_cursor (λ r. (0, cursor_glyph)) (seq_cursor_col t1) (most_salient series)

  abbrev pub whole_seq_plot : List SeqSample → Nanos → SeqPlot
  whole_seq_plot series t1 =
      seq_plot g (g.t0, t1) (seq_cursor_col t1)
        (picture seq_mark (seq_cells series t1) g.width g.height)

  project_seq_on-picture :
      (series : List SeqSample) (t1 : Nanos)
      → 0 < g.width
      → 0 < g.height
      → g.t0 ≤ t1
      → project_seq_on g series (g.t0, t1) ≡ some (some (whole_seq_plot series t1))
  unfolding project_seq_on clamp
  project_seq_on-picture series t1 hw hh ht =
      let in_order : leb g.t0 t1 ≡ true = ground arith in
      let (grid, e, s) =
        draw_all-Shows series (λ c r. none) (blank (g.width * g.height)) hw hh
          (blank-Shows g.width g.height) in
      let at = seq_cursor_col t1 in
      let l : at < g.width = scale_to-lt _ g.span_t g.width hw in
      let (out, k, m) = draw_cursor-Shows g.width g.height _ grid (λ r. (0, cursor_glyph)) at s l in
      let c = collect_marks-picture seq_mark g.width g.height _ out m in
      rw in_order (rw e (rw k (rw c refl)))

-- On a rectangle that is not too small and a span in order, the projection does not panic, whatever
-- the positions wrap to, and its marks are, row by row from the bottom, the picture in which each
-- cell shows the most salient sample of the direction by the cursor, the first of those alike, and
-- the cursor's column is drawn in the free cells.
pub project_seq-picture :
    (series : List SeqSample) (focus : SampleDir) (t0 t1 cursor : Nanos) (width height : ℕ)
    → 8 ≤ width
    → 3 ≤ height
    → t0 ≤ t1
    → project_seq series focus (t0, t1) cursor width height
      ≡ some (some (whole_seq_plot (seq_geom series focus (t0, t1) cursor width height) series t1))
unfolding project_seq
project_seq-picture series focus t0 t1 cursor width height hw hh ht =
    let wide : ltb width 8 ≡ false = ground arith in
    let high : ltb height 3 ≡ false = ground arith in
    rw wide (
      rw high (
        project_seq_on-picture (seq_geom series focus (t0, t1) cursor width height) series t1
          (omega (arith, hw)) (omega (arith, hh)) ht))
