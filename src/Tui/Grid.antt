-- ===== src/Tui/Grid.antt =====
-- The grid of cells that each chart of crates/tcpvisr-tui draws on, row by row from the bottom, as in
-- inflight.rs: an index out of bounds is a panic, and gives `none`.
pub mod Shows
pub mod Picture
use tcp_visr.Base.{
  ℕ, zero, suc, ◌+◌, ◌*◌, Option, none, some, List, [], ◌∷◌, get_elem?, set, snoc, bind,
}

-- `min..min + n`
abbrev pub range_from : ℕ → ℕ → List ℕ
range_from a zero = []
range_from a (suc n) = a ∷ range_from (suc a) n

-- A `for` loop whose body may panic.
unfoldable pub loop {ℓ κ} : {A : Type ℓ} {S : Type κ} → (A → S → Option S) → List A → S → Option S
loop f [] s = some s
loop f (a ∷ xs) s = bind (loop f xs) (f a s)

abbrev pub idx : ℕ → ℕ → ℕ → ℕ
idx width col row = row * width + col

module _ {ℓ} {A : Type ℓ} where
  -- `vec![None; n]`
  abbrev pub blank : ℕ → List (Option A)
  blank zero = []
  blank (suc n) = none ∷ blank n

  -- A new value for a cell that is there, by what it holds.
  abbrev pub put_on :
      List (Option A) → ℕ → (Option A → Option A) → Option (Option A) → Option (List (Option A))
  put_on grid i f none = none
  put_on grid i f (some cell) = some (set grid i (f cell))

  unfoldable pub put : List (Option A) → ℕ → (Option A → Option A) → Option (List (Option A))
  put grid i f = put_on grid i f (get_elem? grid i)

  abbrev pub or_cell : A → Option A → Option A
  or_cell a none = some a
  or_cell a (some b) = some b

  -- The cursor's column, in the cells that are free.
  unfoldable pub draw_cursor : (ℕ → A) → ℕ → ℕ → ℕ → List (Option A) → Option (List (Option A))
  draw_cursor mark width height col grid =
      loop (λ row g. put g (idx width col row) (or_cell (mark row))) (range_from 0 height) grid

  module _ {κ} {M : Type κ} (mark : ℕ → ℕ → A → M) where
    abbrev pub push_mark : List M → ℕ → ℕ → Option (Option A) → Option (List M)
    push_mark marks col row none = none
    push_mark marks col row (some none) = some marks
    push_mark marks col row (some (some a)) = some (snoc marks (mark col row a))

    unfoldable pub collect_row : List (Option A) → ℕ → ℕ → List M → Option (List M)
    collect_row grid width row marks =
        loop (λ col ms. push_mark ms col row (get_elem? grid (idx width col row)))
          (range_from 0 width) marks

    unfoldable pub collect_marks : List (Option A) → ℕ → ℕ → Option (List M)
    collect_marks grid width height = loop (collect_row grid width) (range_from 0 height) []
