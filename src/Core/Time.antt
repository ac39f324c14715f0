-- ===== src/Core/Time.antt =====
-- crates/tcpvisr-core/src/time.rs: nanoseconds since the first packet of the capture, a u64.
use tcp_visr.Base.{ℕ}

abbrev pub Nanos : Type 0
Nanos = ℕ
