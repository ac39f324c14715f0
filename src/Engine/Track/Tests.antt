-- ===== src/Engine/Track/Tests.antt =====
-- The lifecycle, the unwrapped offsets and the backstop at concrete inputs.
use tcp_visr.Base.{◌≤◌, ◌≡◌, refl, true, false, List, [], ◌∷◌, arith, pos, negsuc}
use tcp_visr.Core.Segment.{Segment, syn, ack_flag, rst, fin}
use tcp_visr.Engine.State.{syn_sent, established, reset, rank}
use tcp_visr.Engine.Conn.{Direction, o2r, r2o}
use tcp_visr.Engine.Track.{Life, default_unwrap, is_syn_ack, live_on}
use tcp_visr.Engine.Track.Lifecycle.{
  live_all, IsSettled, live_all-monotone, live_all-IsSettled, syn_ack-established,
}
use tcp_visr.Engine.Track.Unwrap.{offset_all, offset_all-stream}
use tcp_visr.Engine.Fixtures.{client, server, seg_of}

abbrev opened : Life
opened = record { state = syn_sent; fin_o2r = false; fin_r2o = false }

abbrev broken : Life
broken = record { state = reset; fin_o2r = false; fin_r2o = false }

abbrev talk : List (Segment × Direction)
talk =
    (seg_of server client 0x12 499 100 0 10, r2o)
    ∷ (seg_of client server 0x18 100 500 40 30, o2r)
    ∷ (seg_of client server 0x11 140 500 0 60, o2r)
    ∷ []

live_all-monotone_example : rank syn_sent ≤ rank (live_all opened talk).state
live_all-monotone_example = live_all-monotone opened talk

opened-IsSettled : IsSettled opened
opened-IsSettled = record { closed_fins = λ h. cc; fins_closed = λ h. cc; waiting_fin = λ h. cc }

live_all-IsSettled_example : IsSettled (live_all opened talk)
live_all-IsSettled_example = live_all-IsSettled opened talk opened-IsSettled

syn_ack_flags : (is_syn_ack 0x12 ≡ true) × (rst 0x12 ≡ false) × (fin 0x12 ≡ false)
unfolding is_syn_ack syn ack_flag rst fin
syn_ack_flags = (refl, refl, refl)

syn_ack-established_example : (live_on 0x12 0 r2o opened).state ≡ established
syn_ack-established_example =
    syn_ack-established 0x12 0 r2o opened refl syn_ack_flags.0 syn_ack_flags.1 syn_ack_flags.2

-- A stream that starts ten bytes before the wrap, and a segment from before its start.
offset_all-stream_example :
    offset_all default_unwrap (4294967286 ∷ 4 ∷ 4294967281 ∷ []) ≡ pos 0 ∷ pos 14 ∷ negsuc 4 ∷ []
offset_all-stream_example = offset_all-stream 4294967286 (4294967300 ∷ 4294967281 ∷ []) (
  (omega arith, omega arith, omega arith, omega arith),
  ((omega arith, omega arith, omega arith, omega arith), tt),
)
