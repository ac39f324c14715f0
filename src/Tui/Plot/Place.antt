-- ===== src/Tui/Plot/Place.antt =====
-- What a grid shows after `place`: the marks of a series over what was there.
use tcp_visr.Base.{
  ◌≡◌, refl, subst, arith, ℕ, suc, ◌+◌, ◌≤◌, ◌<◌, true, false, ◌==◌, ltb, leb, if◌then◌else◌,
  Option, none, some, List, [], ◌∷◌, length, get_elem?, Bool-cases, inl, inr,
}
use tcp_visr.Tui.Grid.Shows.{Shows, Shows-same, put-Shows, update, draw_cursor-Shows, with_cursor}
use tcp_visr.Tui.Grid.Picture.{picture, collect_marks-picture}
use tcp_visr.Tui.Transport.{clamp}
use tcp_visr.Tui.Plot.{
  Geom, Mark, Reader, col, place_from, place_series, cursor_glyph, cursor_col, finish_plot,
}
use tcp_visr.Tui.Plot.Tallest.{scale_to-lt, tallest, tallest-lt, peaks-tallest}

module _ {κ} {S : Type κ} (g : Geom) (series : S) (glyph : ℕ) where
  abbrev pub mark_of : ℕ → ℕ → Mark S
  mark_of c r = record { col_at = c; row_at = r; glyph = glyph; series = series }

  -- The mark of a column at its row, and in the other rows what was there.
  abbrev pub over_row : Option ℕ → ℕ → Mark S → Option (Mark S) → Option (Mark S)
  over_row none r m x = x
  over_row (some q) r m x = if q == r then some m else x

  abbrev pub overlay : (ℕ → Option ℕ) → (ℕ → ℕ → Option (Mark S)) → ℕ → ℕ → Option (Mark S)
  overlay t f c r = over_row (t c) r (mark_of c r) (f c r)

  -- The same from column `k` on.
  abbrev overlay_from : ℕ → (ℕ → Option ℕ) → (ℕ → ℕ → Option (Mark S)) → ℕ → ℕ → Option (Mark S)
  overlay_from k t f c r = if leb k c then overlay t f c r else f c r

  skip_column :
      (k : ℕ) (t : ℕ → Option ℕ) (f : ℕ → ℕ → Option (Mark S)) (c r : ℕ)
      → t k ≡ none
      → overlay_from (suc k) t f c r ≡ overlay_from k t f c r
  skip_column k t f c r e = elim (Bool-cases (k == c)) [
    | inl h ↦
        let n : k ≡ c = ground arith in
        subst (λ z. overlay_from (suc k) t f z r ≡ overlay_from k t f z r) n (rw e (ground arith))
    | inr h ↦ ground arith
  ]

  over_row-update :
      (q r k : ℕ) (x : Option (Mark S))
      → (if q == r then some (mark_of k q) else x) ≡ (if q == r then some (mark_of k r) else x)
  over_row-update q r k x = elim (Bool-cases (q == r)) [
    | inl h ↦ let n : q ≡ r = ground arith in rw n refl
    | inr h ↦ rw h refl
  ]

  draw_column :
      (k q : ℕ) (t : ℕ → Option ℕ) (f : ℕ → ℕ → Option (Mark S)) (c r : ℕ)
      → t k ≡ some q
      → overlay_from (suc k) t (update (λ _. some (mark_of k q)) k q f) c r ≡ overlay_from k t f c r
  draw_column k q t f c r e = elim (Bool-cases (k == c)) [
    | inl h ↦
        let n : k ≡ c = ground arith in
        subst
          (λ z.
            overlay_from (suc k) t (update (λ _. some (mark_of k q)) k q f) z r
            ≡ overlay_from k t f z r)
          n (rw e (let m = over_row-update q r k (f k r) in ground arith))
    | inr h ↦ ground arith
  ]

  place_from-Shows :
      (k : ℕ) (ps : List (Option ℕ)) (t : ℕ → Option ℕ) (f : ℕ → ℕ → Option (Mark S))
      (grid : List (Option (Mark S)))
      → ((i : ℕ) → i < length ps → get_elem? ps i ≡ some (t (k + i)))
      → k + length ps ≡ g.width
      → g.width < 65536
      → ((c q : ℕ) → t c ≡ some q → q < g.height)
      → Shows g.width g.height f grid
      → (out : List (Option (Mark S))) × (place_from g series glyph k ps grid ≡ some out)
        × Shows g.width g.height (overlay_from k t f) out
  unfolding place_from
  place_from-Shows k [] t f grid hp hk hw ht shows =
      (grid, refl, Shows-same g.width g.height f _ grid (λ c r hc hr. ground arith) shows)
  place_from-Shows k (none ∷ ps) t f grid hp hk hw ht shows =
      let z : k + 0 ≡ k = omega arith in
      let e : t k ≡ none = let h = hp 0 (omega arith) in subst (λ i. t i ≡ none) z cc in
      let (out, run, s) =
        place_from-Shows (suc k) ps t f grid
          (λ i hi.
            let n : k + suc i ≡ suc k + i = omega arith in
            subst (λ j. get_elem? ps i ≡ some (t j)) n (hp (suc i) (omega (arith, hi))))
          (omega (arith, hk)) hw ht shows in
      (out, run, Shows-same g.width g.height _ _ out (λ c r hc hr. skip_column k t f c r e) s)
  place_from-Shows k (some q ∷ ps) t f grid hp hk hw ht shows =
      let z : k + 0 ≡ k = omega arith in
      let e : t k ≡ some q = let h = hp 0 (omega arith) in subst (λ i. t i ≡ some q) z cc in
      let below : k < 65536 = omega (arith, hk, hw) in
      let fits : ltb 65535 k ≡ false = ground arith in
      let (g1, run1, s1) =
        put-Shows g.width g.height f grid k q (λ _. some (mark_of k q)) shows (omega (arith, hk))
          (ht k q e) in
      let (out, run, s) =
        place_from-Shows (suc k) ps t _ g1
          (λ i hi.
            let n : k + suc i ≡ suc k + i = omega arith in
            subst (λ j. get_elem? ps i ≡ some (t j)) n (hp (suc i) (omega (arith, hi))))
          (omega (arith, hk)) hw ht s1 in
      (
        out,
        rw fits (rw run1 run),
        Shows-same g.width g.height _ _ out (λ c r hc hr. draw_column k q t f c r e) s,
      )

-- After the marks of a series are placed, each column shows the series in the row of its tallest
-- sample, and elsewhere the grid shows what it showed.
pub place_series-Shows {ℓ κ} :
    {A : Type ℓ} {S : Type κ} (reader : Reader A) (g : Geom) (samples : List A) (series : S)
    (glyph : ℕ) (f : ℕ → ℕ → Option (Mark S)) (grid : List (Option (Mark S)))
    → 0 < g.width
    → g.width < 65536
    → 0 < g.height
    → Shows g.width g.height f grid
    → (out : List (Option (Mark S))) × (place_series reader g samples series glyph grid ≡ some out)
      × Shows g.width g.height (overlay g series glyph (tallest reader g samples) f) out
unfolding place_series
place_series-Shows reader g samples series glyph f grid hw hv hh shows =
    let (ps, e, h) = peaks-tallest reader g samples hw in
    let (out, run, s) =
      place_from-Shows g series glyph 0 ps (tallest reader g samples) f grid
        (λ i hi. let z : 0 + i ≡ i = omega arith in rw z (h.1 i (omega (arith, h.0, hi))))
        (omega (arith, h.0)) hv (λ c q k. tallest-lt reader g samples c q hh k) shows in
    (out, rw e run, Shows-same g.width g.height _ _ out (λ c r hc hr. ground arith) s)

-- The cursor and the collection, after the series are placed: the marks are those of the picture
-- with the cursor's column.
pub finish_plot-picture {ℓ} :
    {S : Type ℓ} (g : Geom) (series : S) (t1 : ℕ) (f : ℕ → ℕ → Option (Mark S))
    (grid : List (Option (Mark S)))
    → 0 < g.width
    → g.t0 ≤ t1
    → Shows g.width g.height f grid
    → finish_plot g series t1 grid
      ≡ some (
        cursor_col g t1,
        picture
            (λ c r m. m)
            (with_cursor
              (λ r. mark_of g series cursor_glyph (cursor_col g t1) r)
              (cursor_col g t1)
              f)
            g.width
            g.height,
      )
unfolding finish_plot clamp col
finish_plot-picture g series t1 f grid hw ht shows =
    let in_order : leb g.t0 t1 ≡ true = ground arith in
    let at = cursor_col g t1 in
    let l : at < g.width = scale_to-lt _ g.span_t g.width hw in
    let (out, e, s) =
      draw_cursor-Shows g.width g.height f grid (mark_of g series cursor_glyph at) at shows l in
    let m = collect_marks-picture (λ c r m. m) g.width g.height _ out s in
    rw in_order (rw e (rw m refl))
