-- ===== src/Engine/Metrics/Flight.antt =====
-- Bytes in flight: the clamp keeps them under 2^31, and the sample agrees with the later read.
use tcp_visr.Base.{ℕ, ◌<◌, ◌≡◌, Option, some, arith}
use tcp_visr.Core.Seq.{TcpSeq, half, serial_lt, serial_diff}
use tcp_visr.Core.Segment.{Segment}
use tcp_visr.Engine.Conn.{Direction}
use tcp_visr.Engine.Config.{EngineConfig}
use tcp_visr.Engine.Metrics.{
  MetricState, serial_le, outstanding, in_flight, flight_of, dir_state, opposite, observe,
  sender_after, receiver_after, send,
}
use tcp_visr.Engine.Metrics.Frame.{dir_state-put_dirs, sender_after-fields}

outstanding-lt : (acked snd : TcpSeq) → outstanding acked snd < half
unfolding outstanding serial_le serial_lt serial_diff
outstanding-lt acked snd = ground arith

flight_of-lt : (s a : Option TcpSeq) (n : ℕ) → flight_of s a ≡ some n → n < half
unfolding flight_of
flight_of-lt (some s) (some a) n h = ground (arith, outstanding-lt a s)
flight_of-lt _ _ n h = cc

-- The outstanding bytes that a direction reports are always fewer than 2^31, whatever was captured.
pub in_flight-lt : (m : MetricState) (dir : Direction) (n : ℕ) → in_flight m dir ≡ some n → n < half
unfolding in_flight
in_flight-lt m dir n h = flight_of-lt (dir_state m dir).snd_nxt (dir_state m dir).acked n h

-- After a segment, the outstanding bytes read back for its direction are those of its sample, and
-- the sample's are fewer than 2^31.
pub observe-in_flight :
    (m : MetricState) (seg : Segment) (dir : Direction) (cfg : EngineConfig)
    → (in_flight (observe m seg dir cfg).0 dir ≡ some (observe m seg dir cfg).1.in_flight_bytes)
      × ((observe m seg dir cfg).1.in_flight_bytes < half)
unfolding observe in_flight send flight_of
observe-in_flight m seg dir cfg =
    let d = dir_state m dir in
    let fields = sender_after-fields cfg seg d in
    (
      rw (
        (dir_state-put_dirs dir (sender_after cfg seg d)
            (receiver_after seg (dir_state m (opposite dir))).0).0,
        fields.flight.snd_nxt,
        fields.flight.acked,
      ),
      outstanding-lt _ _,
    )
