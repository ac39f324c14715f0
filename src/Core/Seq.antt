-- ===== src/Core/Seq.antt =====
-- crates/tcpvisr-core/src/seq.rs: TCP serial numbers under RFC 1982. A `TcpSeq` is a number below
-- 2^32; the range is a hypothesis where a law needs it.
pub mod Laws
mod Tests
use tcp_visr.Base.{ℕ, Bool, not, ltb, ◌==◌, ◌&&◌, wrapping_sub}

abbrev pub TcpSeq : Type 0
TcpSeq = ℕ

-- `HALF`
abbrev pub half : ℕ
half = 2147483648

unfoldable pub serial_lt : TcpSeq → TcpSeq → Bool
serial_lt self other =
    let forward = wrapping_sub other self in not (forward == 0) && ltb forward half

unfoldable pub serial_gt : TcpSeq → TcpSeq → Bool
unfolding serial_lt
serial_gt self other = serial_lt other self

unfoldable pub serial_diff : TcpSeq → TcpSeq → ℕ
serial_diff self earlier = wrapping_sub self earlier
