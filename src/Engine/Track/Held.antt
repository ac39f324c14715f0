-- ===== src/Engine/Track/Held.antt =====
-- How pushing, popping and evicting change the number of samples that a connection holds.
use tcp_visr.Base.{
  ℕ, zero, suc, ◌+◌, ◌-◌, ◌≡◌, refl, ap, ◌⊎◌, inl, inr, true, false, List, [], ◌∷◌, some, arith,
  length, get_elem?, tail, leb, Bool-cases, ◌==◌,
}
use tcp_visr.Engine.Track.{
  ConnTrack, held, view, life, max_index_from, evictable, pop_series, pop_longest_front,
}

length-tail {ℓ} : {A : Type ℓ} (xs : List A) → length (tail xs) ≡ length xs - 1
length-tail [] = omega arith
length-tail (x ∷ xs) = omega arith

-- The pick is a length of the list, or the start where that was greater.
max_index_from-pick :
    (best most i : ℕ) (ns : List ℕ)
    → (max_index_from best most i ns ≡ (best, most))
      ⊎ ((k : ℕ) × (get_elem? ns k ≡ some (max_index_from best most i ns).1)
          × ((max_index_from best most i ns).0 ≡ i + k))
unfolding max_index_from
max_index_from-pick best most i [] = inl refl
max_index_from-pick best most i (n ∷ ns) = elim (Bool-cases (leb most n)) [
  | inl more ↦ elim (max_index_from-pick i n (suc i) ns) [
    | inl e ↦ rw (more, e) (inr (0, refl, omega arith))
    | inr (k, at, e) ↦ rw more (inr (suc k, at, omega arith))
  ]
  | inr less ↦ elim (max_index_from-pick best most (suc i) ns) [
    | inl e ↦ rw (less, e) (inl refl)
    | inr (k, at, e) ↦ rw less (inr (suc k, at, omega arith))
  ]
]

pop_series-held :
    (k n : ℕ) (c : ConnTrack)
    → get_elem? (evictable c) k ≡ some (suc n)
    → suc (held (pop_series k c)) ≡ held c
unfolding pop_series evictable held
pop_series-held zero n c h = ground (arith, length-tail c.states)
pop_series-held (suc zero) n c h = ground (arith, length-tail c.series)
pop_series-held (suc (suc zero)) n c h = ground (arith, length-tail c.seq)
pop_series-held (suc (suc (suc zero))) n c h = ground (arith, length-tail c.inflight)
pop_series-held (suc (suc (suc (suc zero)))) n c h = ground (arith, length-tail c.rtt)
pop_series-held (suc (suc (suc (suc (suc zero))))) n c h = ground (arith, length-tail c.throughput)
pop_series-held (suc (suc (suc (suc (suc (suc k)))))) n c h = cc

pop_series-frame :
    (k : ℕ) (c : ConnTrack) → (view (pop_series k c) ≡ view c) × (life (pop_series k c) ≡ life c)
unfolding pop_series view
pop_series-frame zero c = (refl, refl)
pop_series-frame (suc zero) c = (refl, refl)
pop_series-frame (suc (suc zero)) c = (refl, refl)
pop_series-frame (suc (suc (suc zero))) c = (refl, refl)
pop_series-frame (suc (suc (suc (suc zero)))) c = (refl, refl)
pop_series-frame (suc (suc (suc (suc (suc k))))) c = (refl, refl)

-- The length picked is that of the series at the index picked, if it is not zero.
pick-evictable :
    (c : ConnTrack)
    → let r = max_index_from 0 0 0 (evictable c) in
      (r.1 == 0) ≡ false → get_elem? (evictable c) r.0 ≡ some (suc (r.1 - 1))
pick-evictable c nz =
    let ns = evictable c in
    elim (max_index_from-pick 0 0 0 ns) [
      | inl e ↦
          let none_left : (max_index_from 0 0 0 ns).1 ≡ 0 = ap (λ r. r.1) e in absurd (ground arith)
      | inr (k, at, e) ↦
          let same : (max_index_from 0 0 0 ns).0 ≡ k = omega arith in
          let positive : suc ((max_index_from 0 0 0 ns).1 - 1) ≡ (max_index_from 0 0 0 ns).1 =
            ground arith in
          rw (same, positive) at
    ]

-- The backstop removes one sample when it says so, and nothing otherwise; it changes neither what
-- is reported of the connection nor its lifecycle.
pub pop_longest_front-held :
    (c : ConnTrack)
    → ((pop_longest_front c).1 ≡ true → suc (held (pop_longest_front c).0) ≡ held c)
      × ((pop_longest_front c).1 ≡ false → (pop_longest_front c).0 ≡ c)
      × (view (pop_longest_front c).0 ≡ view c)
      × (life (pop_longest_front c).0 ≡ life c)
unfolding pop_longest_front
pop_longest_front-held c =
    let r = max_index_from 0 0 0 (evictable c) in
    elim (Bool-cases (r.1 == 0)) [
      | inl z ↦ rw z ((λ h. cc), (λ h. refl), refl, refl)
      | inr nz ↦
          let frame = pop_series-frame r.0 c in
          rw nz (
            (λ h. pop_series-held r.0 (r.1 - 1) c (pick-evictable c nz)),
            (λ h. cc),
            frame.0,
            frame.1,
          )
    ]
