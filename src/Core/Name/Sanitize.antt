-- ===== src/Core/Name/Sanitize.antt =====
-- What a host name can hold.
use tcp_visr.Base.{
  ℕ, ◌≤◌, ◌<◌, ◌≡◌, true, ltb, ◌==◌, if◌then◌else◌, none, some, List, [], ◌∷◌, length, All, arith,
  Bool-cases, inl, inr,
}
use tcp_visr.Core.Name.{host_name, strip_dot, printable, is_printable, nonempty, max_host_len}

printable-All : (bs : List ℕ) → All (λ b. is_printable b ≡ true) (printable bs)
unfolding printable
printable-All [] = tt
printable-All (b ∷ bs) = elim (Bool-cases (is_printable b)) [
  | inl kept ↦ rw kept (kept, printable-All bs)
  | inr other ↦ rw other (printable-All bs)
]

length-printable : (bs : List ℕ) → length (printable bs) ≤ length bs
unfolding printable
length-printable [] = omega arith
length-printable (b ∷ bs) =
    let le = length-printable bs in
    elim (Bool-cases (is_printable b)) [
      | inl kept ↦ rw kept (omega arith)
      | inr other ↦ rw other (omega arith)
    ]

nonempty-some : (bs name : List ℕ) → nonempty bs ≡ some name → (bs ≡ name) × (0 < length name)
unfolding nonempty
nonempty-some [] name h = cc
nonempty-some (b ∷ bs) name h = let same : (b ∷ bs) ≡ name = cc in (same, rw (← same) (omega arith))

strip_dot-length : (raw : List ℕ) → length (strip_dot raw) ≤ length raw
unfolding strip_dot
strip_dot-length [] = omega arith
strip_dot-length (b ∷ []) = ground arith
strip_dot-length (b ∷ c ∷ bs) = let le = strip_dot-length (c ∷ bs) in omega arith

accepted :
    (trimmed name : List ℕ)
    → (if length trimmed == 0
        then none
        else if ltb max_host_len (length trimmed)
        then none
        else nonempty (printable trimmed))
      ≡ some name
    → (length trimmed ≤ max_host_len) × (nonempty (printable trimmed) ≡ some name)
accepted trimmed name h = ground arith

-- Whatever bytes the network sent, a host name that is accepted has between 1 and 253 bytes, all of
-- them printable ASCII.
pub host_name-printable :
    (raw name : List ℕ)
    → host_name raw ≡ some name
    → (0 < length name) × (length name ≤ max_host_len) × All (λ b. is_printable b ≡ true) name
unfolding host_name
host_name-printable raw name h =
    let (short, kept) = accepted (strip_dot raw) name h in
    let (same, some_byte) = nonempty-some (printable (strip_dot raw)) name kept in
    let le = length-printable (strip_dot raw) in
    rw (← same) (rw same some_byte, omega arith, printable-All (strip_dot raw))
