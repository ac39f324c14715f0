-- ===== src/Engine/Track/Unwrap.antt =====
-- The unwrapped offset of a sequence number against positions in the byte stream.
use tcp_visr.Base.{
  ℕ, ◌+◌, ◌-◌, ◌%◌, ◌≤◌, ◌<◌, ◌≡◌, refl, ap, ap₂, sym, map, inl, inr, ◌⊎◌, some, List, [], ◌∷◌,
  true, false, arith, max, u32_mod, ℤ, pos, sub_ℕ, ◌+ℤ◌, ◌-ℤ◌, wrap_i64, wrap_i64_id, ◌==◌,
}
use tcp_visr.Core.Seq.{half, serial_gt, serial_diff}
use tcp_visr.Core.Seq.Laws.{serial_lt-position, serial_diff-position}
use tcp_visr.Engine.Track.{SeqUnwrap, default_unwrap, offset, offset_from}

-- The frontier stands for position `f` of a stream that was first seen at `start`.
abbrev pub Tracks : ℕ → ℕ → SeqUnwrap → Type 0
Tracks start f u = u.frontier ≡ some (f % u32_mod, sub_ℕ f start)

-- A position within 2^31 of the frontier of a stream that has not run for 2^62 bytes.
abbrev pub Near : ℕ → ℕ → ℕ → Type 0
Near start f p = (start ≤ f) × (p < f + half) × (f < p + half) × (f < start + 4611686018427387904)

wrap-sub_ℕ :
    (a b : ℕ)
    → a < b + 9223372036854775808
    → b < a + 9223372036854775808
    → wrap_i64 (sub_ℕ a b) ≡ sub_ℕ a b
wrap-sub_ℕ a b h k = wrap_i64_id (sub_ℕ a b) (ground arith) (ground arith)

forward-sub_ℕ : (start f p : ℕ) → start ≤ f → f ≤ p → (sub_ℕ f start +ℤ pos (p - f)) ≡ sub_ℕ p start
unfolding ◌+ℤ◌
forward-sub_ℕ start f p h k = ground arith

backward-sub_ℕ :
    (start f p : ℕ) → start ≤ f → p ≤ f → (sub_ℕ f start -ℤ pos (f - p)) ≡ sub_ℕ p start
unfolding ◌-ℤ◌
backward-sub_ℕ start f p h k = ground arith

module _ (start f p : ℕ) (near : Near start f p) where
  offset_from-same :
      f ≡ p
      → offset_from (p % u32_mod) (f % u32_mod) (sub_ℕ f start)
        ≡ (record { frontier = some (f % u32_mod, sub_ℕ f start) }, sub_ℕ p start)
  unfolding offset_from
  offset_from-same e =
      let same : (p % u32_mod == f % u32_mod) ≡ true = ground arith in
      rw same (ap (λ q. (record { frontier = some (f % u32_mod, sub_ℕ f start) }, sub_ℕ q start)) e)

  offset_from-forward :
      f < p
      → offset_from (p % u32_mod) (f % u32_mod) (sub_ℕ f start)
        ≡ (record { frontier = some (p % u32_mod, sub_ℕ p start) }, sub_ℕ p start)
  unfolding offset_from
  offset_from-forward h =
      let other : (p % u32_mod == f % u32_mod) ≡ false = ground arith in
      let later : serial_gt (p % u32_mod) (f % u32_mod) ≡ true =
        ground (arith, serial_lt-position p f near.1 near.2) in
      let rel : wrap_i64 (sub_ℕ f start +ℤ pos (serial_diff (p % u32_mod) (f % u32_mod)))
          ≡ sub_ℕ p start =
        rw
          (
            serial_diff-position f p (omega arith) (omega arith),
            forward-sub_ℕ start f p near.0 (omega arith),
          )
          (wrap-sub_ℕ p start (omega arith) (omega arith)) in
      rw (other, later, rel)

  offset_from-backward :
      p < f
      → offset_from (p % u32_mod) (f % u32_mod) (sub_ℕ f start)
        ≡ (record { frontier = some (f % u32_mod, sub_ℕ f start) }, sub_ℕ p start)
  unfolding offset_from
  offset_from-backward h =
      let other : (p % u32_mod == f % u32_mod) ≡ false = ground arith in
      let later : serial_gt (p % u32_mod) (f % u32_mod) ≡ false =
        ground (arith, serial_lt-position p f near.1 near.2) in
      let rel : wrap_i64 (sub_ℕ f start -ℤ pos (serial_diff (f % u32_mod) (p % u32_mod)))
          ≡ sub_ℕ p start =
        rw
          (
            serial_diff-position p f (omega arith) (omega arith),
            backward-sub_ℕ start f p near.0 (omega arith),
          )
          (wrap-sub_ℕ p start (omega arith) (omega arith)) in
      rw (other, later, rel)

order : (f p : ℕ) → (f ≡ p) ⊎ ((f < p) ⊎ (p < f))
order f p = omega arith

offset_from-position :
    (start f p : ℕ)
    → Near start f p
    → offset_from (p % u32_mod) (f % u32_mod) (sub_ℕ f start)
      ≡ (record { frontier = some (max f p % u32_mod, sub_ℕ (max f p) start) }, sub_ℕ p start)
offset_from-position start f p near = elim (order f p) [
  | inl e ↦ let m : max f p ≡ f = omega arith in rw m (offset_from-same start f p near e)
  | inr (inl h) ↦ let m : max f p ≡ p = omega arith in rw m (offset_from-forward start f p near h)
  | inr (inr h) ↦ let m : max f p ≡ f = omega arith in rw m (offset_from-backward start f p near h)
]

offset-position :
    (start f p : ℕ) (u : SeqUnwrap)
    → Tracks start f u
    → Near start f p
    → offset u (p % u32_mod)
      ≡ (record { frontier = some (max f p % u32_mod, sub_ℕ (max f p) start) }, sub_ℕ p start)
unfolding offset
offset-position start f p u t near = rw t (offset_from-position start f p near)

-- The offsets that a run of sequence numbers gets.
pub offset_all : SeqUnwrap → List ℕ → List ℤ
offset_all u [] = []
offset_all u (s ∷ ss) = (offset u s).1 ∷ offset_all (offset u s).0 ss

-- Each position lies near the furthest one before it.
abbrev pub AllNear : ℕ → ℕ → List ℕ → Type 0
AllNear start f [] = Unit
AllNear start f (p ∷ ps) = Near start f p × AllNear start (max f p) ps

offset_all-position :
    (start f : ℕ) (ps : List ℕ) (u : SeqUnwrap)
    → Tracks start f u
    → AllNear start f ps
    → offset_all u (map (λ p. p % u32_mod) ps) ≡ map (λ p. sub_ℕ p start) ps
unfolding offset_all
offset_all-position start f [] u t a = refl
offset_all-position start f (p ∷ ps) u t a =
    let step = offset-position start f p u t a.0 in
    ap₂ ◌∷◌ (ap (λ r. r.1) step) (
      offset_all-position start (max f p) ps (offset u (p % u32_mod)).0
        (ap (λ r. r.0.frontier) step) a.1)

-- In a stream whose segments each start within 2^31 of the furthest position so far, the offset of
-- every segment from the first is its true distance, negative before it, however often the 32-bit
-- numbers wrap (up to 2^62 bytes).
pub offset_all-stream :
    (start : ℕ) (ps : List ℕ)
    → AllNear start start ps
    → offset_all default_unwrap (map (λ p. p % u32_mod) (start ∷ ps))
      ≡ pos 0 ∷ map (λ p. sub_ℕ p start) ps
unfolding offset_all offset
offset_all-stream start ps a =
    let zero_here : sub_ℕ start start ≡ pos 0 = ground arith in
    ap (◌∷◌ (pos 0))
      (offset_all-position start start ps _ (ap (λ z. some (start % u32_mod, z)) (sym zero_here)) a)
