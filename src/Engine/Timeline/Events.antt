-- ===== src/Engine/Timeline/Events.antt =====
-- Stepping to the next and the previous event, against all recorded state samples.
use tcp_visr.Base.{
  ◌≡◌, refl, sym, ap, ◌∙◌, true, false, ◌&&◌, inl, inr, Bool-cases, Option-cases, leb, ltb,
  if◌then◌else◌, Option, none, some, List, [], ◌∷◌, map, get_elem?, arith, All, IsSorted,
  partition_point,
}
use tcp_visr.Core.Time.{Nanos}
use tcp_visr.Engine.Timeline.{
  ConnSeries, state_times, pushed_times, entry_of, with_seq_ending, next_event, prev_event,
  get_before,
}
use tcp_visr.Engine.Timeline.Resolve.{or_else, get_before-cons, partition_point-le}
use tcp_visr.Engine.Timeline.Times.{fold_times, fold_times-event_times, event_times-IsSorted}

-- The least of the times after `t`.
abbrev sooner : Nanos → Nanos → Option Nanos → Option Nanos
sooner t x none = if ltb t x then some x else none
sooner t x (some y) = if ltb t x && ltb x y then some x else some y

unfoldable pub least_after : Nanos → List Nanos → Option Nanos
unfolding fold_times
least_after t xs = fold_times (sooner t) xs

-- The greatest of the times before `t`.
abbrev latter : Nanos → Nanos → Option Nanos → Option Nanos
latter t x none = if ltb x t then some x else none
latter t x (some y) = if ltb x t && ltb y x then some x else some y

unfoldable pub greatest_before : Nanos → List Nanos → Option Nanos
unfolding fold_times
greatest_before t xs = fold_times (latter t) xs

sooner_comm :
    (t x y : Nanos) (o : Option Nanos) → sooner t x (sooner t y o) ≡ sooner t y (sooner t x o)
sooner_comm t x y none = ground arith
sooner_comm t x y (some z) = ground arith

sooner_idem : (t x : Nanos) (o : Option Nanos) → sooner t x (sooner t x o) ≡ sooner t x o
sooner_idem t x none = ground arith
sooner_idem t x (some z) = ground arith

latter_comm :
    (t x y : Nanos) (o : Option Nanos) → latter t x (latter t y o) ≡ latter t y (latter t x o)
latter_comm t x y none = ground arith
latter_comm t x y (some z) = ground arith

latter_idem : (t x : Nanos) (o : Option Nanos) → latter t x (latter t x o) ≡ latter t x o
latter_idem t x none = ground arith
latter_idem t x (some z) = ground arith

least_after-ge :
    (t x r : Nanos) (xs : List Nanos)
    → All (λ y. leb x y ≡ true) xs
    → least_after t xs ≡ some r
    → leb x r ≡ true
unfolding least_after fold_times
least_after-ge t x r [] a e = cc
least_after-ge t x r (y ∷ ys) a e = elim (Option-cases (least_after t ys)) [
  | inl last ↦ let e' = rw last at e in let h = a.0 in ground arith
  | inr (q, more) ↦
      let ih = least_after-ge t x q ys a.1 more in
      let e' = rw more at e in let h = a.0 in ground arith
]

-- The binary search in a sorted list finds the least time after `t`.
search-least_after :
    (t : Nanos) (xs : List Nanos)
    → IsSorted leb xs
    → get_elem? xs (partition_point (λ x. leb x t) xs) ≡ least_after t xs
unfolding partition_point least_after fold_times
search-least_after t [] s = refl
search-least_after t (x ∷ xs) s = elim (Bool-cases (leb x t)) [
  | inl passed ↦ rw passed (search-least_after t xs s.1 ∙ skipped (least_after t xs) passed)
  | inr next ↦ rw next (sym (first (least_after t xs) refl next))
]
  where
    skipped : (o : Option Nanos) → leb x t ≡ true → o ≡ sooner t x o
    skipped none h = ground arith
    skipped (some y) h = ground arith

    first : (o : Option Nanos) → least_after t xs ≡ o → leb x t ≡ false → sooner t x o ≡ some x
    first none e h = ground arith
    first (some y) e h = let ge = least_after-ge t x y xs s.0 e in ground arith

-- The next event after a cursor time is the least time after it of any state sample recorded of
-- any connection, and there is none where no sample is later.
pub next_event-least_after :
    (conns : List ConnSeries) (end t : Nanos)
    → next_event (with_seq_ending conns end) t ≡ least_after t (state_times conns)
unfolding next_event with_seq_ending least_after
next_event-least_after conns end t =
    search-least_after t _ (event_times-IsSorted (pushed_times (map (entry_of end) conns)))
    ∙ fold_times-event_times (sooner t) (sooner_comm t) (sooner_idem t) end conns

get_before-zero : (xs : List Nanos) → get_before xs 0 ≡ none
unfolding get_before
get_before-zero xs = refl

greatest_before-ge :
    (t x r : Nanos) (xs : List Nanos)
    → All (λ y. leb x y ≡ true) xs
    → greatest_before t xs ≡ some r
    → leb x r ≡ true
unfolding greatest_before fold_times
greatest_before-ge t x r [] a e = cc
greatest_before-ge t x r (y ∷ ys) a e = elim (Option-cases (greatest_before t ys)) [
  | inl last ↦ let e' = rw last at e in let h = a.0 in ground arith
  | inr (q, more) ↦
      let ih = greatest_before-ge t x q ys a.1 more in
      let e' = rw more at e in let h = a.0 in ground arith
]

greatest_before-none :
    (t x : Nanos) (xs : List Nanos)
    → All (λ y. leb x y ≡ true) xs
    → ltb x t ≡ false
    → greatest_before t xs ≡ none
unfolding greatest_before fold_times
greatest_before-none t x [] a h = refl
greatest_before-none t x (y ∷ ys) a h =
    let rest = greatest_before-none t x ys a.1 h in let ge = a.0 in rw rest (ground arith)

search-greatest_before :
    (t : Nanos) (xs : List Nanos)
    → IsSorted leb xs
    → get_before xs (partition_point (λ x. ltb x t) xs) ≡ greatest_before t xs
unfolding partition_point greatest_before fold_times
search-greatest_before t [] s = get_before-zero []
search-greatest_before t (x ∷ xs) s = elim (Bool-cases (ltb x t)) [
  | inl before ↦ rw before (
      get_before-cons x xs _ (partition_point-le (λ y. ltb y t) xs)
      ∙ ap (λ o. some (or_else o x)) (search-greatest_before t xs s.1)
      ∙ picked (greatest_before t xs) refl before)
  | inr after ↦
      let rest = greatest_before-none t x xs s.0 after in
      rw after (rw rest (rw after (get_before-zero (x ∷ xs))))
]
  where
    picked :
        (o : Option Nanos)
        → greatest_before t xs ≡ o
        → ltb x t ≡ true
        → some (or_else o x) ≡ latter t x o
    picked none e h = ground arith
    picked (some y) e h = let ge = greatest_before-ge t x y xs s.0 e in ground arith

-- The event before a cursor time is the greatest time before it of any state sample recorded of
-- any connection, and there is none where no sample is earlier.
pub prev_event-greatest_before :
    (conns : List ConnSeries) (end t : Nanos)
    → prev_event (with_seq_ending conns end) t ≡ greatest_before t (state_times conns)
unfolding prev_event with_seq_ending greatest_before
prev_event-greatest_before conns end t =
    search-greatest_before t _ (event_times-IsSorted (pushed_times (map (entry_of end) conns)))
    ∙ fold_times-event_times (latter t) (latter_comm t) (latter_idem t) end conns
