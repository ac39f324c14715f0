-- ===== src/Engine/Metrics/Tests.antt =====
-- A short exchange through the derivation of crates/tcpvisr-engine/src/metrics.rs, and the theorems
-- at it.
use tcp_visr.Base.{
  ◌+◌, ◌≤◌, ◌<◌, ◌≡◌, ◌↔◌, ◌⊎◌, ◌&&◌, refl, true, false, some, Option, List, [], ◌∷◌, All, arith,
}
use tcp_visr.Core.Time.{Nanos}
use tcp_visr.Core.Seq.{half, serial_lt, serial_gt, serial_diff}
use tcp_visr.Core.Segment.{Segment, syn, fin, rst, ack_flag}
use tcp_visr.Engine.Conn.{Direction, o2r, r2o}
use tcp_visr.Engine.Config.{default_config}
use tcp_visr.Engine.Metrics.{
  MetricState, seq_end, serial_max, serial_le, new_metrics, dir_state, sample_dir, opposite,
  put_dirs, is_data, consumes_seq, ack_advances, or_insert, send, acknowledge, outstanding,
  classify_from, classify, advance_frontier, queue_rtt, pop_acked, take_rtt, evict_window,
  push_window, evict_to, window_push_and_evict, in_window, windowed, windowed_good, scale_bps,
  rates, elapsed, throughput_at, in_flight, sender_after, receiver_after, has_sack, observe,
}
use tcp_visr.Engine.Metrics.History.{observe_all, sent_log, throughput_at-history}
use tcp_visr.Engine.Metrics.Flight.{observe-in_flight}
use tcp_visr.Engine.Metrics.Goodput.{goodput-le-throughput}
use tcp_visr.Engine.Metrics.Rtt.{Split, observe-rtt}
use tcp_visr.Engine.Metrics.Karn.{Measures, observe-rtt_karn}
use tcp_visr.Engine.Metrics.Stream.{size, observe-position}
use tcp_visr.Engine.Fixtures.{client, server, seg_of}

abbrev first : Segment
first = seg_of client server 0x18 100 500 40 30

abbrev again : Segment
again = seg_of client server 0x18 100 500 40 3000040

abbrev reply : Segment
reply = seg_of server client 0x10 500 140 0 50

abbrev exchange : List (Segment × Direction)
exchange = (first, o2r) ∷ (again, o2r) ∷ []

abbrev after_first : MetricState
after_first = (observe new_metrics first o2r default_config).0

-- The second copy comes after the reordering window, and counts as a retransmission.
sent :
    sent_log default_config new_metrics o2r exchange
    ≡ record { ts = 30; len = 40; again = false }
      ∷ record { ts = 3000040; len = 40; again = true }
      ∷ []
unfolding seq_end serial_max serial_le new_metrics dir_state sample_dir opposite put_dirs is_data
    consumes_seq ack_advances or_insert send acknowledge outstanding classify_from classify
    advance_frontier queue_rtt pop_acked take_rtt evict_window push_window evict_to
    window_push_and_evict in_window windowed windowed_good scale_bps rates throughput_at in_flight
    sender_after receiver_after has_sack observe observe_all sent_log serial_lt serial_gt
    serial_diff syn fin rst ack_flag
sent = refl

sent_by_then : All (λ e. e.ts ≤ 3000050) (sent_log default_config new_metrics o2r exchange)
sent_by_then = rw sent (omega arith, (omega arith, tt))

throughput_at-history_example :
    throughput_at (observe_all default_config new_metrics exchange) o2r 3000050 default_config
    ≡ some (640, 320)
unfolding seq_end serial_max serial_le new_metrics dir_state sample_dir opposite put_dirs is_data
    consumes_seq ack_advances or_insert send acknowledge outstanding classify_from classify
    advance_frontier queue_rtt pop_acked take_rtt evict_window push_window evict_to
    window_push_and_evict in_window windowed windowed_good scale_bps rates throughput_at in_flight
    sender_after receiver_after has_sack observe observe_all sent_log serial_lt serial_gt
    serial_diff syn fin rst ack_flag
throughput_at-history_example =
    throughput_at-history default_config o2r exchange 3000050 (omega arith) sent_by_then

goodput-le-throughput_example : 320 ≤ 640
goodput-le-throughput_example =
    goodput-le-throughput (observe_all default_config new_metrics exchange) o2r 3000050
      default_config 640 320 throughput_at-history_example

in_flight_first : in_flight after_first o2r ≡ some 40
unfolding seq_end serial_max serial_le new_metrics dir_state sample_dir opposite put_dirs is_data
    consumes_seq ack_advances or_insert send acknowledge outstanding classify_from classify
    advance_frontier queue_rtt pop_acked take_rtt evict_window push_window evict_to
    window_push_and_evict in_window windowed windowed_good scale_bps rates throughput_at in_flight
    sender_after receiver_after has_sack observe observe_all sent_log serial_lt serial_gt
    serial_diff syn fin rst ack_flag
in_flight_first = refl

observe-in_flight_example :
    (in_flight after_first o2r
      ≡ some (observe new_metrics first o2r default_config).1.in_flight_bytes)
    × ((observe new_metrics first o2r default_config).1.in_flight_bytes < half)
observe-in_flight_example = observe-in_flight new_metrics first o2r default_config

reply_advances : ack_advances reply (dir_state after_first (opposite r2o)) ≡ true
unfolding seq_end serial_max serial_le new_metrics dir_state sample_dir opposite put_dirs is_data
    consumes_seq ack_advances or_insert send acknowledge outstanding classify_from classify
    advance_frontier queue_rtt pop_acked take_rtt evict_window push_window evict_to
    window_push_and_evict in_window windowed windowed_good scale_bps rates throughput_at in_flight
    sender_after receiver_after has_sack observe observe_all sent_log serial_lt serial_gt
    serial_diff syn fin rst ack_flag
reply_advances = refl

observe-rtt_example :
    (oldest : Option Nanos) × Split 140 ((140, 30) ∷ []) [] oldest
    × ((observe after_first reply r2o default_config).1.rtt ≡ elapsed 50 oldest)
unfolding seq_end serial_max serial_le new_metrics dir_state sample_dir opposite put_dirs is_data
    consumes_seq ack_advances or_insert send acknowledge outstanding classify_from classify
    advance_frontier queue_rtt pop_acked take_rtt evict_window push_window evict_to
    window_push_and_evict in_window windowed windowed_good scale_bps rates throughput_at in_flight
    sender_after receiver_after has_sack observe observe_all sent_log serial_lt serial_gt
    serial_diff syn fin rst ack_flag
observe-rtt_example = observe-rtt after_first reply r2o default_config reply_advances

first_stays : ack_advances first (dir_state new_metrics (opposite o2r)) ≡ false
unfolding seq_end serial_max serial_le new_metrics dir_state sample_dir opposite put_dirs is_data
    consumes_seq ack_advances or_insert send acknowledge outstanding classify_from classify
    advance_frontier queue_rtt pop_acked take_rtt evict_window push_window evict_to
    window_push_and_evict in_window windowed windowed_good scale_bps rates throughput_at in_flight
    sender_after receiver_after has_sack observe observe_all sent_log serial_lt serial_gt
    serial_diff syn fin rst ack_flag
first_stays = refl

again_resent : (observe after_first again o2r default_config).1.retransmit ≡ true
unfolding seq_end serial_max serial_le new_metrics dir_state sample_dir opposite put_dirs is_data
    consumes_seq ack_advances or_insert send acknowledge outstanding classify_from classify
    advance_frontier queue_rtt pop_acked take_rtt evict_window push_window evict_to
    window_push_and_evict in_window windowed windowed_good scale_bps rates throughput_at in_flight
    sender_after receiver_after has_sack observe observe_all sent_log serial_lt serial_gt
    serial_diff syn fin rst ack_flag
again_resent = refl

-- After the second copy a new segment is sent, whose ack covers all three.
abbrev retried : List (Segment × Direction)
retried = (first, o2r) ∷ (again, o2r) ∷ (seg_of client server 0x18 140 500 10 3000060, o2r) ∷ []

abbrev late_reply : Segment
late_reply = seg_of server client 0x10 500 150 0 3000100

retried_rtt :
    (observe
      (observe_all default_config new_metrics retried)
      late_reply
      (opposite o2r)
      default_config).1.rtt
    ≡ some 40
unfolding seq_end serial_max serial_le new_metrics dir_state sample_dir opposite put_dirs is_data
    consumes_seq ack_advances or_insert send acknowledge outstanding classify_from classify
    advance_frontier queue_rtt pop_acked take_rtt evict_window push_window evict_to
    window_push_and_evict in_window windowed windowed_good scale_bps rates throughput_at in_flight
    sender_after receiver_after has_sack observe observe_all sent_log serial_lt serial_gt
    serial_diff syn fin rst ack_flag
retried_rtt = refl

observe-rtt_karn_example : Measures default_config o2r retried late_reply 40
observe-rtt_karn_example = observe-rtt_karn default_config o2r retried late_reply 40 retried_rtt

frontier_first : (dir_state after_first o2r).frontier ≡ some 140
unfolding seq_end serial_max serial_le new_metrics dir_state sample_dir opposite put_dirs is_data
    consumes_seq ack_advances or_insert send acknowledge outstanding classify_from classify
    advance_frontier queue_rtt pop_acked take_rtt evict_window push_window evict_to
    window_push_and_evict in_window windowed windowed_good scale_bps rates throughput_at in_flight
    sender_after receiver_after has_sack observe observe_all sent_log serial_lt serial_gt
    serial_diff syn fin rst ack_flag
frontier_first = refl

again_size : 100 + size again < 140 + half
unfolding seq_end serial_max serial_le new_metrics dir_state sample_dir opposite put_dirs is_data
    consumes_seq ack_advances or_insert send acknowledge outstanding classify_from classify
    advance_frontier queue_rtt pop_acked take_rtt evict_window push_window evict_to
    window_push_and_evict in_window windowed windowed_good scale_bps rates throughput_at in_flight
    sender_after receiver_after has_sack observe observe_all sent_log serial_lt serial_gt
    serial_diff syn fin rst ack_flag
again_size = omega arith

observe-position_example :
    let sample = (observe after_first again o2r default_config).1 in
    ((sample.retransmit ≡ true) ⊎ (sample.out_of_order ≡ true) ↔ (100 < 140))
    × ((sample.retransmit && sample.out_of_order) ≡ false)
    × ((dir_state (observe after_first again o2r default_config).0 o2r).frontier ≡ some 140)
unfolding seq_end serial_max serial_le new_metrics dir_state sample_dir opposite put_dirs is_data
    consumes_seq ack_advances or_insert send acknowledge outstanding classify_from classify
    advance_frontier queue_rtt pop_acked take_rtt evict_window push_window evict_to
    window_push_and_evict in_window windowed windowed_good scale_bps rates throughput_at in_flight
    sender_after receiver_after has_sack observe observe_all sent_log serial_lt serial_gt
    serial_diff syn fin rst ack_flag
observe-position_example =
    observe-position after_first again o2r default_config 140 100 (omega arith) refl frontier_first
      (omega arith) (omega arith) again_size
