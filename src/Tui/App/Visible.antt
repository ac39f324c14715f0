-- ===== src/Tui/App/Visible.antt =====
-- Of app.rs: the order of the rows does not decide which connections are visible.
use tcp_visr.Base.{
  ◌≡◌, refl, sym, ap, ◌∙◌, arith, Bool, true, ◌||◌, List, [], ◌∷◌, Option, none, some, sort_by,
  insert_sorted, Bool-cases, inl, inr,
}
use tcp_visr.Engine.Conn.{ConnId, eq_id}
use tcp_visr.Tui.App.{ConnRow}
use tcp_visr.Tui.App.Commands.{has_id}

-- The selected connection is in a row; there is none only where there is no row.
abbrev pub Stands : Option ConnId → List ConnRow → Type 0
Stands none rows = rows ≡ []
Stands (some id) rows = has_id id rows ≡ true

module _ (leq : ConnRow → ConnRow → Bool) where
  has_id-insert_sorted :
      (id : ConnId) (r : ConnRow) (rs : List ConnRow)
      → has_id id (insert_sorted leq r rs) ≡ (eq_id r.id id || has_id id rs)
  unfolding insert_sorted
  has_id-insert_sorted id r [] = refl
  has_id-insert_sorted id r (s ∷ ss) = elim (Bool-cases (leq r s)) [
    | inl h ↦ rw h refl
    | inr h ↦ rw h (let k = has_id-insert_sorted id r ss in ground arith)
  ]

  has_id-sort_by : (id : ConnId) (rs : List ConnRow) → has_id id (sort_by leq rs) ≡ has_id id rs
  unfolding sort_by
  has_id-sort_by id [] = refl
  has_id-sort_by id (r ∷ rs) =
      has_id-insert_sorted id r (sort_by leq rs)
      ∙ ap (λ b. eq_id r.id id || b) (has_id-sort_by id rs)

  insert_sorted-ne_nil : (r : ConnRow) (rs : List ConnRow) → insert_sorted leq r rs ≡ [] → ⊥
  unfolding insert_sorted
  insert_sorted-ne_nil r [] h = cc
  insert_sorted-ne_nil r (s ∷ ss) h = elim (Bool-cases (leq r s)) [
    | inl e ↦ let k = rw e at h in cc
    | inr e ↦ let k = rw e at h in cc
  ]

  sort_by-eq_nil : (rs : List ConnRow) → sort_by leq rs ≡ [] → rs ≡ []
  unfolding sort_by
  sort_by-eq_nil [] h = refl
  sort_by-eq_nil (r ∷ rs) h = absurd (insert_sorted-ne_nil r (sort_by leq rs) h)

  sort_by_nil : (rs : List ConnRow) → rs ≡ [] → sort_by leq rs ≡ []
  unfolding sort_by
  sort_by_nil [] h = refl
  sort_by_nil (r ∷ rs) h = cc

  pub sorted-Stands :
      (s : Option ConnId) (rs : List ConnRow) → Stands s rs → Stands s (sort_by leq rs)
  sorted-Stands none rs h = sort_by_nil rs h
  sorted-Stands (some id) rs h = has_id-sort_by id rs ∙ h

  pub Stands-sorted :
      (s : Option ConnId) (rs : List ConnRow) → Stands s (sort_by leq rs) → Stands s rs
  Stands-sorted none rs h = sort_by-eq_nil rs h
  Stands-sorted (some id) rs h = sym (has_id-sort_by id rs) ∙ h
