-- ===== src/Tui/Grid/Picture.antt =====
-- The marks collected from a grid, against the list of what it shows row by row.
use tcp_visr.Base.{
  ◌≡◌, refl, ap, ◌∙◌, ℕ, zero, suc, ◌<◌, Option, none, some, List, [], ◌∷◌, ◌++◌, get_elem?,
  append_assoc, append-nil, sym,
}
use tcp_visr.Tui.Grid.{idx, push_mark, collect_row, collect_marks}
use tcp_visr.Tui.Grid.Shows.{Shows, loop-range_zero}

module _ {ℓ κ} {A : Type ℓ} {M : Type κ} (mark : ℕ → ℕ → A → M) where
  abbrev cell_marks : ℕ → ℕ → Option A → List M
  cell_marks c r none = []
  cell_marks c r (some a) = mark c r a ∷ []

  -- The first `n` cells of a row.
  abbrev line : (ℕ → ℕ → Option A) → ℕ → ℕ → List M
  line f r zero = []
  line f r (suc n) = line f r n ++ cell_marks n r (f n r)

  -- The lowest `n` rows, of `w` cells each.
  abbrev pub picture : (ℕ → ℕ → Option A) → ℕ → ℕ → List M
  picture f w zero = []
  picture f w (suc n) = picture f w n ++ line f n w

  push_mark-cell :
      (ms : List M) (c r : ℕ) (cell : Option A)
      → push_mark mark ms c r (some cell) ≡ some (ms ++ cell_marks c r cell)
  push_mark-cell ms c r none = ap some (sym (append-nil ms))
  push_mark-cell ms c r (some a) = refl

  collect_row-line :
      (w h : ℕ) (f : ℕ → ℕ → Option A) (grid : List (Option A)) (r : ℕ) (ms : List M)
      → Shows w h f grid
      → r < h
      → (ns : List M) × (collect_row mark grid w r ms ≡ some ns) × (ns ≡ ms ++ line f r w)
  unfolding collect_row
  collect_row-line w h f grid r ms shows hr =
      loop-range_zero (λ i ns. ns ≡ ms ++ line f r i)
        (λ col ns. push_mark mark ns col r (get_elem? grid (idx w col r))) w ms
        (λ i ns k p. (
          ns ++ cell_marks i r (f i r),
          ap (push_mark mark ns i r) (shows i r k hr) ∙ push_mark-cell ns i r (f i r),
          ap (λ xs. xs ++ cell_marks i r (f i r)) p ∙ append_assoc ms (line f r i) _,
        ))
        (sym (append-nil ms))

  pub collect_marks-picture :
      (w h : ℕ) (f : ℕ → ℕ → Option A) (grid : List (Option A))
      → Shows w h f grid
      → collect_marks mark grid w h ≡ some (picture f w h)
  unfolding collect_marks
  collect_marks-picture w h f grid shows =
      let (ms, e, p) =
        loop-range_zero (λ i ns. ns ≡ picture f w i) (collect_row mark grid w) h []
          (λ i ns k p.
            let (os, e, q) = collect_row-line w h f grid i ns shows k in
            (os, e, q ∙ ap (λ xs. xs ++ line f i w) p))
          refl in
      e ∙ ap some p
