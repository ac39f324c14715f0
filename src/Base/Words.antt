-- ===== src/Base/Words.antt =====
-- Machine words as native numbers: the range of a type is a hypothesis or an invariant, and each
-- operation writes its wrap out. `usize` counts elements held in memory, which a `Vec` keeps below
-- the wrap, and is a plain number.
use Prim.Native.Nat.{ℕ, zero, suc, ◌+◌, ◌-◌, ◌*◌, ◌/◌, ◌%◌, ◌≤◌, min}
use native.Mathlib.Omega.{arith}

abbrev pub u32_mod : ℕ
u32_mod = 4294967296

abbrev pub u64_mod : ℕ
u64_mod = 18446744073709551616

abbrev pub u64_max : ℕ
u64_max = 18446744073709551615

-- `u32::wrapping_add` and `wrapping_sub`.
abbrev pub wrapping_add : ℕ → ℕ → ℕ
wrapping_add a b = (a + b) % u32_mod

abbrev pub wrapping_sub : ℕ → ℕ → ℕ
wrapping_sub a b = (a + u32_mod - b) % u32_mod

-- `+` on u32 and u64, as a release build computes it.
abbrev pub add_u32 : ℕ → ℕ → ℕ
add_u32 a b = (a + b) % u32_mod

abbrev pub add_u64 : ℕ → ℕ → ℕ
add_u64 a b = (a + b) % u64_mod

-- `u64::saturating_sub` is the subtraction of ℕ.
abbrev pub saturating_sub : ℕ → ℕ → ℕ
saturating_sub a b = a - b

-- `u64::saturating_add`, and `u64::try_from(_).unwrap_or(u64::MAX)`.
abbrev pub saturate_u64 : ℕ → ℕ
saturate_u64 n = min n u64_max

abbrev pub saturating_add : ℕ → ℕ → ℕ
saturating_add a b = saturate_u64 (a + b)

pub div_mono : (a b w : ℕ) → a ≤ b → a / w ≤ b / w
div_mono a b w h = grind arith

pub mul_mono : (a b w : ℕ) → a ≤ b → a * w ≤ b * w
mul_mono a b zero h = omega arith
mul_mono a b (suc w) h = omega (arith, h, mul_mono a b w h)
