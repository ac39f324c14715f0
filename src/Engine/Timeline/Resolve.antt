-- ===== src/Engine/Timeline/Resolve.antt =====
-- The state of each connection at a cursor time.
use tcp_visr.Base.{
  ℕ, zero, suc, ◌≤◌, ◌≡◌, refl, ap, ◌∙◌, Bool, true, false, ◌&&◌, inl, inr, Bool-cases, leb, ltb,
  if◌then◌else◌, Option, none, some, List, [], ◌∷◌, map, length, arith, All, sort_by, insert_sorted,
  IsSorted, sort_by-IsSorted, partition_point, get_elem?-some, All-map, Option-cases,
}
use tcp_visr.Core.Time.{Nanos}
use tcp_visr.Engine.State.{is_terminal}
use tcp_visr.Engine.Timeline.{
  StateSample, ConnSeries, AsOf, Entry, entry_of, with_seq_ending, by_time_state, is_active,
  active_entries, get_before, sample_at, as_of, resolve_entries, resolve_at,
}

-- Of the samples at or before `t` in recorded order: the one with the greatest time, the last
-- recorded where times are equal.
abbrev pub later_of : Nanos → StateSample → Option StateSample → Option StateSample
later_of t s none = if leb s.t t then some s else none
later_of t s (some r) = if leb s.t t && ltb r.t s.t then some s else some r

unfoldable pub latest : Nanos → List StateSample → Option StateSample
latest t [] = none
latest t (s ∷ ss) = later_of t s (latest t ss)

pub partition_point-le {ℓ} :
    {A : Type ℓ} (p : A → Bool) (xs : List A) → partition_point p xs ≤ length xs
unfolding partition_point
partition_point-le p [] = omega arith
partition_point-le p (x ∷ xs) = ground (arith, partition_point-le p xs)

abbrev pub or_else {ℓ} : {A : Type ℓ} → Option A → A → A
or_else none a = a
or_else (some b) a = b

pub get_before-cons {ℓ} :
    {A : Type ℓ} (x : A) (xs : List A) (k : ℕ)
    → k ≤ length xs
    → get_before (x ∷ xs) (suc k) ≡ some (or_else (get_before xs k) x)
unfolding get_before
get_before-cons x xs zero h = refl
get_before-cons x xs (suc k) h = let (a, e) = get_elem?-some xs k h in rw (e, or_else)

-- One step of the search from the front.
sample_at-cons :
    (t : Nanos) (x : StateSample) (xs : List StateSample)
    → sample_at t (x ∷ xs) ≡ (if leb x.t t then some (or_else (sample_at t xs) x) else none)
unfolding sample_at partition_point
sample_at-cons t x xs = elim (Bool-cases (leb x.t t)) [
  | inl le ↦ rw le (get_before-cons x xs _ (partition_point-le (λ s. leb s.t t) xs))
  | inr gt ↦ rw gt
]

sample_at-none :
    (t : Nanos) (x : StateSample) (xs : List StateSample)
    → All (λ y. leb x.t y.t ≡ true) xs
    → leb x.t t ≡ false
    → sample_at t xs ≡ none
unfolding sample_at partition_point get_before
sample_at-none t x [] a h = refl
sample_at-none t x (y ∷ ys) a h = let gt : leb y.t t ≡ false = ground arith in rw gt

sample_at-nil : (t : Nanos) → sample_at t [] ≡ none
unfolding sample_at partition_point get_before
sample_at-nil t = refl

-- `by` holds of the result where it holds of every sample.
sample_at-after :
    (t : Nanos) (x : StateSample) (xs : List StateSample) (r : StateSample)
    → All (λ y. leb x.t y.t ≡ true) xs
    → sample_at t xs ≡ some r
    → leb x.t r.t ≡ true
sample_at-after t x [] r a e = let empty = sample_at-nil t in cc
sample_at-after t x (y ∷ ys) r a e = elim (Option-cases (sample_at t ys)) [
  | inl last ↦ ground (arith, sample_at-cons t y ys)
  | inr (q, more) ↦
      let ih = sample_at-after t x ys q a.1 more in ground (arith, sample_at-cons t y ys)
]

insert_sorted-nil : (x : StateSample) → insert_sorted by_time_state x [] ≡ x ∷ []
unfolding insert_sorted
insert_sorted-nil x = refl

insert_sorted-cons :
    (x y : StateSample) (ys : List StateSample)
    → insert_sorted by_time_state x (y ∷ ys)
      ≡ (if leb x.t y.t then x ∷ y ∷ ys else y ∷ insert_sorted by_time_state x ys)
unfolding insert_sorted
insert_sorted-cons x y ys = refl

-- Inserting an earlier record into the sorted rest searches as `later_of`.
insert_before :
    (t : Nanos) (s y : StateSample) (ys : List StateSample)
    → All (λ z. leb s.t z.t ≡ true) (y ∷ ys)
    → sample_at t (s ∷ y ∷ ys) ≡ later_of t s (sample_at t (y ∷ ys))
insert_before t s y ys a = elim (Bool-cases (leb s.t t)) [
  | inl le ↦ elim (Option-cases (sample_at t (y ∷ ys))) [
    | inl e ↦ rw (sample_at-cons t s (y ∷ ys), le, e, or_else, later_of, le)
    | inr (r, e) ↦
        let ge = sample_at-after t s (y ∷ ys) r a e in
        rw (sample_at-cons t s (y ∷ ys), le, e) (ground arith)
  ]
  | inr gt ↦ rw (sample_at-cons t s (y ∷ ys), gt, sample_at-none t s (y ∷ ys) a gt, later_of, gt)
]

later_of-after :
    (t : Nanos) (s y : StateSample) (o : Option StateSample)
    → leb s.t y.t ≡ false
    → (if leb y.t t then some (or_else (later_of t s o) y) else none)
      ≡ later_of t s (if leb y.t t then some (or_else o y) else none)
later_of-after t s y none h = ground arith
later_of-after t s y (some r) h = ground arith

sample_at-insert_sorted :
    (t : Nanos) (s : StateSample) (xs : List StateSample)
    → IsSorted by_time_state xs
    → sample_at t (insert_sorted by_time_state s xs) ≡ later_of t s (sample_at t xs)
sample_at-insert_sorted t s [] v = rw (insert_sorted-nil s, sample_at-cons t s [], sample_at-nil t)
sample_at-insert_sorted t s (y ∷ ys) v = elim (Bool-cases (leb s.t y.t)) [
  | inl le ↦
      rw (insert_sorted-cons s y ys, le)
        (insert_before t s y ys (
          le,
          All-map (λ z. leb y.t z.t ≡ true) (λ z. leb s.t z.t ≡ true) ys (λ z h. ground arith) v.0,
        ))
  | inr gt ↦
      rw
        (
          insert_sorted-cons s y ys,
          gt,
          sample_at-cons t y (insert_sorted by_time_state s ys),
          sample_at-insert_sorted t s ys v.1,
          sample_at-cons t y ys,
        )
        (later_of-after t s y (sample_at t ys) gt)
]

by_time_state-IsSorted : (xs : List StateSample) → IsSorted by_time_state (sort_by by_time_state xs)
by_time_state-IsSorted =
    sort_by-IsSorted by_time_state (λ x y h. ground arith) (λ x y z h k. ground arith)

-- The binary search in the sorted series finds the sample that a scan of the recorded series
-- finds: the greatest time at or before the cursor, and the last recorded of equal times.
pub sample_at-sort :
    (t : Nanos) (states : List StateSample)
    → sample_at t (sort_by by_time_state states) ≡ latest t states
unfolding sort_by latest
sample_at-sort t [] = sample_at-nil t
sample_at-sort t (s ∷ ss) =
    sample_at-insert_sorted t s (sort_by by_time_state ss) (by_time_state-IsSorted ss)
    ∙ ap (later_of t s) (sample_at-sort t ss)

-- The connections whose interval holds `t`, each with its latest sample, by a scan.
abbrev pub span_end : Nanos → ConnSeries → Nanos
span_end end c = if is_terminal c.conn.state then c.conn.last_at else end

abbrev pub found : ConnSeries → Option StateSample → List AsOf → List AsOf
found c none rest = rest
found c (some s) rest =
    record { id = c.conn.id; state = s.state; bytes_o2r = s.bytes_o2r; bytes_r2o = s.bytes_r2o }
    ∷ rest

unfoldable pub resolve_scan : Nanos → Nanos → List ConnSeries → List AsOf
resolve_scan t end [] = []
resolve_scan t end (c ∷ cs) =
    if leb c.conn.opened_at t && leb t (span_end end c)
    then found c (latest t c.states) (resolve_scan t end cs)
    else resolve_scan t end cs

resolve_entries-cons :
    (t end : Nanos) (c : ConnSeries) (es : List Entry) (o : Option StateSample)
    → sample_at t (sort_by by_time_state c.states) ≡ o
    → resolve_entries t (entry_of end c ∷ es) ≡ found c o (resolve_entries t es)
unfolding resolve_entries entry_of as_of
resolve_entries-cons t end c es none e = rw (e, resolve_entries)
resolve_entries-cons t end c es (some s) e = rw (e, resolve_entries)

resolve_entries-scan :
    (t end : Nanos) (conns : List ConnSeries)
    → resolve_entries t (active_entries t (map (entry_of end) conns)) ≡ resolve_scan t end conns
unfolding resolve_entries active_entries resolve_scan entry_of is_active as_of
resolve_entries-scan t end [] = refl
resolve_entries-scan t end (c ∷ cs) =
    elim (Bool-cases (leb c.conn.opened_at t && leb t (span_end end c))) [
      | inl active ↦ rw active (
          resolve_entries-cons t end c _ (latest t c.states) (sample_at-sort t c.states)
          ∙ ap (found c (latest t c.states)) (resolve_entries-scan t end cs))
      | inr idle ↦ rw idle (resolve_entries-scan t end cs)
    ]

-- At any cursor time the timeline reports exactly the connections whose interval holds the time
-- and that have a sample by then, in order, each as its latest sample says.
pub resolve_at-scan :
    (conns : List ConnSeries) (end t : Nanos)
    → resolve_at (with_seq_ending conns end) t ≡ resolve_scan t end conns
unfolding resolve_at with_seq_ending
resolve_at-scan conns end t = resolve_entries-scan t end conns
