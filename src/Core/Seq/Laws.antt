-- ===== src/Core/Seq/Laws.antt =====
-- What the serial comparison means for the positions in a byte stream.
use tcp_visr.Base.{
  ℕ, ◌+◌, ◌-◌, ◌%◌, ◌≤◌, ◌<◌, ◌≡◌, ◌≢◌, true, false, not, ltb, arith, u32_mod, wrapping_sub,
}
use tcp_visr.Core.Seq.{half, serial_lt, serial_gt, serial_diff}

-- Two stream positions less than 2^31 apart, each cut down to 32 bits, compare as the positions
-- themselves do, in both directions.
pub serial_lt-position :
    (p q : ℕ)
    → p < q + half
    → q < p + half
    → (serial_lt (p % u32_mod) (q % u32_mod) ≡ ltb p q)
      × (serial_gt (p % u32_mod) (q % u32_mod) ≡ ltb q p)
unfolding serial_lt serial_gt
serial_lt-position p q h k = ground arith

-- The serial distance from an earlier to a later position less than 2^32 ahead is the number of
-- bytes between them.
pub serial_diff-position :
    (p q : ℕ) → p ≤ q → q < p + u32_mod → serial_diff (q % u32_mod) (p % u32_mod) ≡ q - p
unfolding serial_diff
serial_diff-position p q h k = omega arith

-- Of two different serial numbers that are not exactly 2^31 apart, exactly one precedes the other.
pub serial_lt_antisymm :
    (a b : ℕ)
    → a < u32_mod
    → b < u32_mod
    → a ≢ b
    → wrapping_sub b a ≢ half
    → serial_lt a b ≡ not (serial_lt b a)
unfolding serial_lt
serial_lt_antisymm a b ha hb ne off = ground arith

-- A serial number that precedes another is less than 2^31 behind it, and is not preceded by it.
pub serial_lt-diff :
    (a b : ℕ)
    → a < u32_mod
    → b < u32_mod
    → serial_lt a b ≡ true
    → (0 < serial_diff b a) × (serial_diff b a < half) × (serial_gt a b ≡ false)
unfolding serial_lt serial_gt serial_diff
serial_lt-diff a b ha hb h = ground arith
