-- ===== src/Engine/Timeline/Times.antt =====
-- The times of the events, sorted and without repetition, against the recorded ones.
use tcp_visr.Base.{
  ◌≡◌, refl, sym, ap, ◌∙◌, Bool, inl, inr, Bool-cases, leb, ◌==◌, Option, none, List, [], ◌∷◌, ◌++◌,
  map, arith, All, sort_by, insert_sorted, IsSorted, sort_by-IsSorted, dedup, dedup_from,
}
use tcp_visr.Core.Time.{Nanos}
use tcp_visr.Engine.Timeline.{
  ConnSeries, times_of, state_times, pushed_times, entry_of, by_time_state, bounds, new_timeline,
  with_seq, with_seq_ending, max_or_zero, min_or_zero,
}

unfoldable pub fold_times : (Nanos → Option Nanos → Option Nanos) → List Nanos → Option Nanos
fold_times pick [] = none
fold_times pick (x ∷ xs) = pick x (fold_times pick xs)

map_id : (xs : List Nanos) → map (λ x. x) xs ++ [] ≡ xs
map_id [] = refl
map_id (x ∷ xs) = ap (◌∷◌ x) (map_id xs)

-- A pick that depends neither on the order nor on repetition gives the same of the event times as
-- of the recorded ones.
module _ (pick : Nanos → Option Nanos → Option Nanos)
    (comm : (x y : Nanos) (o : Option Nanos) → pick x (pick y o) ≡ pick y (pick x o))
    (idem : (x : Nanos) (o : Option Nanos) → pick x (pick x o) ≡ pick x o) where
  module _ {ℓ} {A : Type ℓ} (key : A → Nanos) (leq : A → A → Bool) (rest : List Nanos) where
    fold_times-insert_sorted :
        (x : A) (xs : List A)
        → fold_times pick (map key (insert_sorted leq x xs) ++ rest)
          ≡ pick (key x) (fold_times pick (map key xs ++ rest))
    unfolding insert_sorted fold_times
    fold_times-insert_sorted x [] = refl
    fold_times-insert_sorted x (y ∷ ys) = elim (Bool-cases (leq x y)) [
      | inl e ↦ rw e
      | inr e ↦ rw e (
          ap (pick (key y)) (fold_times-insert_sorted x ys)
          ∙ comm (key y) (key x) (fold_times pick (map key ys ++ rest)))
    ]

    fold_times-sort_by :
        (xs : List A)
        → fold_times pick (map key (sort_by leq xs) ++ rest) ≡ fold_times pick (map key xs ++ rest)
    unfolding sort_by fold_times
    fold_times-sort_by [] = refl
    fold_times-sort_by (x ∷ xs) =
        fold_times-insert_sorted x (sort_by leq xs) ∙ ap (pick (key x)) (fold_times-sort_by xs)

  fold_times-dedup_from :
      (a : Nanos) (xs : List Nanos)
      → pick a (fold_times pick (dedup_from a xs)) ≡ pick a (fold_times pick xs)
  unfolding dedup_from fold_times
  fold_times-dedup_from a [] = refl
  fold_times-dedup_from a (b ∷ xs) = elim (Bool-cases (a == b)) [
    | inl e ↦
        let same : a ≡ b = ground arith in
        rw e (
          fold_times-dedup_from a xs
          ∙ sym (idem a (fold_times pick xs))
          ∙ ap (λ c. pick a (pick c (fold_times pick xs))) same)
    | inr e ↦ rw e (ap (pick a) (fold_times-dedup_from b xs))
  ]

  fold_times-dedup : (xs : List Nanos) → fold_times pick (dedup xs) ≡ fold_times pick xs
  unfolding dedup fold_times
  fold_times-dedup [] = refl
  fold_times-dedup (a ∷ xs) = fold_times-dedup_from a xs

  fold_times-append :
      (xs ys zs : List Nanos)
      → fold_times pick ys ≡ fold_times pick zs
      → fold_times pick (xs ++ ys) ≡ fold_times pick (xs ++ zs)
  unfolding fold_times
  fold_times-append [] ys zs h = h
  fold_times-append (x ∷ xs) ys zs h = ap (pick x) (fold_times-append xs ys zs h)

  fold_times-pushed_times :
      (end : Nanos) (conns : List ConnSeries)
      → fold_times pick (pushed_times (map (entry_of end) conns))
        ≡ fold_times pick (state_times conns)
  unfolding pushed_times entry_of state_times
  fold_times-pushed_times end [] = refl
  fold_times-pushed_times end (c ∷ cs) =
      fold_times-sort_by (λ s. s.t) by_time_state _ c.states
      ∙ fold_times-append (times_of c.states) _ _ (fold_times-pushed_times end cs)

  fold_times-sort_leb : (xs : List Nanos) → fold_times pick (sort_by leb xs) ≡ fold_times pick xs
  fold_times-sort_leb xs =
      ap (fold_times pick) (sym (map_id (sort_by leb xs)))
      ∙ fold_times-sort_by (λ x. x) leb [] xs
      ∙ ap (fold_times pick) (map_id xs)

  -- The sorted times without repetition against the recorded ones.
  pub fold_times-event_times :
      (end : Nanos) (conns : List ConnSeries)
      → fold_times pick (dedup (sort_by leb (pushed_times (map (entry_of end) conns))))
        ≡ fold_times pick (state_times conns)
  fold_times-event_times end conns =
      fold_times-dedup (sort_by leb (pushed_times (map (entry_of end) conns)))
      ∙ fold_times-sort_leb (pushed_times (map (entry_of end) conns))
      ∙ fold_times-pushed_times end conns

dedup_from-All :
    (P : Nanos → Type 0) (a : Nanos) (xs : List Nanos) → All P xs → All P (dedup_from a xs)
unfolding dedup_from
dedup_from-All P a [] h = tt
dedup_from-All P a (b ∷ xs) h = elim (Bool-cases (a == b)) [
  | inl e ↦ rw e (dedup_from-All P a xs h.1)
  | inr e ↦ rw e (h.0, dedup_from-All P b xs h.1)
]

dedup_from-IsSorted :
    (a : Nanos) (xs : List Nanos) → IsSorted leb xs → IsSorted leb (dedup_from a xs)
unfolding dedup_from
dedup_from-IsSorted a [] h = tt
dedup_from-IsSorted a (b ∷ xs) h = elim (Bool-cases (a == b)) [
  | inl e ↦ rw e (dedup_from-IsSorted a xs h.1)
  | inr e ↦ rw e (dedup_from-All _ b xs h.0, dedup_from-IsSorted b xs h.1)
]

dedup-IsSorted : (xs : List Nanos) → IsSorted leb xs → IsSorted leb (dedup xs)
unfolding dedup
dedup-IsSorted [] h = tt
dedup-IsSorted (a ∷ xs) h = (dedup_from-All _ a xs h.0, dedup_from-IsSorted a xs h.1)

pub event_times-IsSorted : (times : List Nanos) → IsSorted leb (dedup (sort_by leb times))
event_times-IsSorted times =
    dedup-IsSorted (sort_by leb times)
      (sort_by-IsSorted leb (λ x y h. ground arith) (λ x y z h k. ground arith) times)

pub new_timeline_empty : bounds (new_timeline []) ≡ (0, 0)
unfolding bounds new_timeline with_seq with_seq_ending max_or_zero min_or_zero pushed_times dedup
    sort_by state_times
new_timeline_empty = refl
