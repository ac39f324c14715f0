-- ===== src/Base/Int.antt =====
-- Signed integers over the native numbers, under the library's names, and the wrap of an i64.
-- Sums go through the two parts of an integer, which are numbers that `omega` reads.
use Prim.Native.Nat.{ℕ, suc, ◌+◌, ◌-◌, ◌%◌, ◌≤◌, ◌<◌}
use mathlib.Core.Path.{◌≡◌}
use native.Mathlib.Omega.{arith}
use tcp_visr.Base.Booleans.{leb, ltb, if◌then◌else◌}

-- `negsuc n` is -(n + 1).
pub data ℤ : Type 0 where
  pos : ℕ → ℤ
  negsuc : ℕ → ℤ

abbrev pub pos_part : ℤ → ℕ
pos_part (pos n) = n
pos_part (negsuc n) = 0

abbrev pub neg_part : ℤ → ℕ
neg_part (pos n) = 0
neg_part (negsuc n) = suc n

-- a - b, as an integer.
abbrev pub sub_ℕ : ℕ → ℕ → ℤ
sub_ℕ a b = if leb b a then pos (a - b) else negsuc (b - a - 1)

infixl 65 ◌+ℤ◌ ◌-ℤ◌
unfoldable pub ◌+ℤ◌ : ℤ → ℤ → ℤ
a +ℤ b = sub_ℕ (pos_part a + pos_part b) (neg_part a + neg_part b)

unfoldable pub ◌-ℤ◌ : ℤ → ℤ → ℤ
a -ℤ b = sub_ℕ (pos_part a + neg_part b) (neg_part a + pos_part b)

-- The residue of an integer modulo 2^64.
abbrev pub residue : ℤ → ℕ
residue (pos n) = n % 18446744073709551616
residue (negsuc n) = 18446744073709551615 - n % 18446744073709551616

-- The i64 with that residue: what `+` and `-` on i64 give in a release build.
unfoldable pub wrap_i64 : ℤ → ℤ
wrap_i64 z =
    if ltb (residue z) 9223372036854775808
    then pos (residue z)
    else negsuc (18446744073709551615 - residue z)

pub eq_of_parts : (a b : ℤ) → pos_part a + neg_part b ≡ pos_part b + neg_part a → a ≡ b
eq_of_parts a b h = ground arith

-- Inside the range of an i64 the wrap changes nothing.
pub wrap_i64_id :
    (z : ℤ) → pos_part z < 9223372036854775808 → neg_part z ≤ 9223372036854775808 → wrap_i64 z ≡ z
unfolding wrap_i64
wrap_i64_id (pos n) p q = ground arith
wrap_i64_id (negsuc n) p q = ground arith
