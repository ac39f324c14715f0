-- ===== src/Core/Seq/Tests.antt =====
-- Runs of the serial comparison, and the laws at concrete numbers.
use tcp_visr.Base.{◌≡◌, refl, true, false, arith}
use tcp_visr.Core.Seq.{serial_lt, serial_gt, serial_diff}
use tcp_visr.Core.Seq.Laws.{serial_lt-position, serial_diff-position}

wraps_forward : (serial_lt 4294967290 10 ≡ true) × (serial_diff 10 4294967290 ≡ 16)
unfolding serial_lt serial_diff
wraps_forward = (refl, refl)

serial_lt-position_example : (serial_lt 4294967290 10 ≡ true) × (serial_gt 4294967290 10 ≡ false)
serial_lt-position_example = serial_lt-position 4294967290 4294967306 (omega arith) (omega arith)

serial_diff-position_example : serial_diff 10 4294967290 ≡ 16
serial_diff-position_example =
    serial_diff-position 4294967290 4294967306 (omega arith) (omega arith)
