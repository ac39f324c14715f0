-- ===== src/Engine/Track/Longest.antt =====
-- Of `pop_longest_front` in crates/tcpvisr-engine/src/tracker.rs: which sample the backstop removes.
use tcp_visr.Base.{
  ℕ, zero, suc, ◌-◌, ◌≤◌, ◌<◌, ◌≡◌, ◌==◌, refl, ◌⊎◌, inl, inr, true, false, List, [], ◌∷◌, arith,
  length, tail, leb, if◌then◌else◌, Bool-cases, All, ◌+◌,
}
use tcp_visr.Engine.Track.{ConnTrack, max_index_from, evictable, pop_series, pop_longest_front}

-- How many samples each series can give up; the states keep one.
abbrev pub spare : ConnTrack → List ℕ
spare c =
    (length c.states - 1)
    ∷ length c.series
    ∷ length c.seq
    ∷ length c.inflight
    ∷ length c.rtt
    ∷ length c.throughput
    ∷ []

-- The list without its front if it is the series `k`, the one at index `i`.
abbrev pub cut {ℓ} : {A : Type ℓ} → ℕ → ℕ → List A → List A
cut k i xs = if k == i then tail xs else xs

-- The connection without the front of the series `k`.
abbrev pub without_front : ℕ → ConnTrack → ConnTrack
without_front k c = record c {
  states = cut k 0 c.states;
  series = cut k 1 c.series;
  seq = cut k 2 c.seq;
  inflight = cut k 3 c.inflight;
  rtt = cut k 4 c.rtt;
  throughput = cut k 5 c.throughput;
}

-- The index `k` holds the greatest of the numbers, and the last of those that are as great.
abbrev pub IsLastGreatest : List ℕ → ℕ → ℕ → Type 0
IsLastGreatest [] k n = ⊥
IsLastGreatest (m ∷ ns) zero n = (m ≡ n) × All (λ x. x < n) ns
IsLastGreatest (m ∷ ns) (suc k) n = (m ≤ n) × IsLastGreatest ns k n

-- The scan: either the start stays, and all numbers are less, or the pick is the last greatest.
max_index_from-IsLastGreatest :
    (best most i : ℕ) (ns : List ℕ)
    → ((max_index_from best most i ns ≡ (best, most)) × All (λ x. x < most) ns)
      ⊎ ((k : ℕ) × ((max_index_from best most i ns).0 ≡ i + k)
          × IsLastGreatest ns k (max_index_from best most i ns).1
          × (most ≤ (max_index_from best most i ns).1))
unfolding max_index_from
max_index_from-IsLastGreatest best most i [] = inl (refl, tt)
max_index_from-IsLastGreatest best most i (n ∷ ns) = elim (Bool-cases (leb most n)) [
  | inl more ↦ elim (max_index_from-IsLastGreatest i n (suc i) ns) [
    | inl (e, a) ↦ rw (more, e) (inr (0, omega arith, (refl, a), ground arith))
    | inr (k, at, g, le) ↦ rw more (inr (suc k, omega arith, (omega arith, g), ground arith))
  ]
  | inr less ↦ elim (max_index_from-IsLastGreatest best most (suc i) ns) [
    | inl (e, a) ↦ rw (less, e) (inl (refl, (ground arith, a)))
    | inr (k, at, g, le) ↦ rw less (inr (suc k, omega arith, (ground arith, g), ground arith))
  ]
]

pop_series-without_front : (k : ℕ) (c : ConnTrack) → k < 6 → pop_series k c ≡ without_front k c
unfolding pop_series
pop_series-without_front zero c h = refl
pop_series-without_front (suc zero) c h = refl
pop_series-without_front (suc (suc zero)) c h = refl
pop_series-without_front (suc (suc (suc zero))) c h = refl
pop_series-without_front (suc (suc (suc (suc zero)))) c h = refl
pop_series-without_front (suc (suc (suc (suc (suc zero))))) c h = refl
pop_series-without_front (suc (suc (suc (suc (suc (suc k)))))) c h = absurd (omega arith)

IsLastGreatest-lt : (ns : List ℕ) (k n : ℕ) → IsLastGreatest ns k n → k < length ns
IsLastGreatest-lt [] k n h = elim h [ ]
IsLastGreatest-lt (m ∷ ns) zero n h = omega arith
IsLastGreatest-lt (m ∷ ns) (suc k) n h = omega (arith, IsLastGreatest-lt ns k n h.1)

IsLastGreatest-zero : (ns : List ℕ) (k : ℕ) → IsLastGreatest ns k 0 → All (λ x. x ≡ 0) ns
IsLastGreatest-zero [] k h = tt
IsLastGreatest-zero (m ∷ ns) zero h = (h.0, none_below ns h.1)
  where
    none_below : (ns : List ℕ) → All (λ x. x < 0) ns → All (λ x. x ≡ 0) ns
    none_below [] a = tt
    none_below (n ∷ ns) a = absurd (omega arith)
IsLastGreatest-zero (m ∷ ns) (suc k) h = (omega arith, IsLastGreatest-zero ns k h.1)

-- The backstop removes the front of the series that can give up most, the last of several such, and
-- changes nothing else; the states are counted without one, so that a connection keeps its last
-- state. It says that it removed one. Where no series can give up any, it leaves the connection as
-- it is and says so.
pub pop_longest_front-longest :
    (c : ConnTrack)
    → (All (λ n. n ≡ 0) (spare c) × (pop_longest_front c ≡ (c, false)))
      ⊎ ((k n : ℕ) × IsLastGreatest (spare c) k n
          × (0 < n)
          × (pop_longest_front c ≡ (without_front k c, true)))
unfolding pop_longest_front evictable
pop_longest_front-longest c = elim (max_index_from-IsLastGreatest 0 0 0 (spare c)) [
  | inl (e, a) ↦ absurd (omega arith)
  | inr (k, at, g, le) ↦
      let most = (max_index_from 0 0 0 (spare c)).1 in
      elim (Bool-cases (most == 0)) [
        | inl z ↦
            let bare : most ≡ 0 = ground arith in
            rw z (inl (IsLastGreatest-zero (spare c) k (rw bare at g), refl))
        | inr nz ↦
            let popped = pop_series-without_front k c (IsLastGreatest-lt (spare c) k most g) in
            let same : (max_index_from 0 0 0 (spare c)).0 ≡ k = omega arith in
            rw (nz, same, popped) (inr (k, most, g, ground arith, refl))
      ]
]
