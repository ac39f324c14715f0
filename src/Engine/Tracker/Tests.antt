-- ===== src/Engine/Tracker/Tests.antt =====
-- A whole session through the tracker of crates/tcpvisr-engine/src/tracker.rs, and the theorems at it.
use tcp_visr.Base.{
  map_some, ℕ, ◌+◌, ◌≤◌, ◌<◌, ◌≡◌, ◌⊎◌, refl, ap, true, false, suc, some, none, Bool, Option, List,
  [], ◌∷◌, map, length, arith, Perm, All, ◌∙◌, sym, sum_of, lookup, insert, retain_keys,
  insert_sorted, sort_by, ◌+ℤ◌, ◌-ℤ◌, wrap_i64,
}
use tcp_visr.Engine.State.{established}
use tcp_visr.Core.Flow.{eq_ip, eq_endpoint, leq_endpoint, source, destination}
use tcp_visr.Core.Segment.{fin, syn, rst, ack_flag}
use tcp_visr.Core.Seq.{serial_lt, serial_gt, serial_diff}
use tcp_visr.Engine.State.{rank, advance_to}
use tcp_visr.Engine.Conn.{endpoint_pair, eq_pair, leq_pair, eq_id}
use tcp_visr.Engine.Config.{EngineConfig, fail_fast, evict, max_samples, window}
use tcp_visr.Engine.Metrics.{
  seq_end, serial_max, serial_le, new_metrics, dir_state, sample_dir, opposite, put_dirs, is_data,
  consumes_seq, ack_advances, or_insert, send, acknowledge, outstanding, classify_from, classify,
  advance_frontier, queue_rtt, pop_acked, take_rtt, evict_window, push_window, evict_to,
  window_push_and_evict, in_window, windowed, windowed_good, scale_bps, rates, throughput_at,
  in_flight, sender_after, receiver_after, has_sack, observe,
}
use tcp_visr.Engine.Track.{
  ConnTrack, is_backward_reset, is_bare_syn, is_syn_ack, advance_baseline, sdir_opposite, offset,
  direction_of, baseline, account, live_on, apply_state, snapshot, unwrap_in, push_data_point,
  push_sack_points, push_seq_points, view, evict_front, max_index_from, evictable, pop_series,
  pop_longest_front, held,
}
use tcp_visr.Engine.Record.{
  Focus, push_state, should_collect, evict_oldest_global, admit, store_admitted, store,
  record_sample, record_state, record_seq, record_inflight, record_rtt, record_throughput,
  record_seq_points, collect_seq_points, inflight_sample, inflight_turn, collect_inflight_at,
  smooth, srtt_of, put_srtt, rtt_sample, collect_rtt_points, throughput_sample, throughput_turn,
  collect_throughput_at, wants_sample, collect_all, derive_sample,
}
use tcp_visr.Engine.Tracker.{
  Tracker, ConnectionMetrics, ok, sample_ceiling, into_metrics, into_timeline, into_connections,
  leq_conn, new_tracker, evict_conn, evict_all, evict_samples, should_split, opening, new_track,
  set_fin, open_track, focus, record_snapshot, create_instance, join, join_at, join_or_split, place,
  observe_segment, decay_turn, decay_all, emit_decay_samples, survives, retain_conns, index_from,
  has_pair, evict_dead_connections, observe_tick, observe_item, observe_items,
}
use tcp_visr.Engine.Timeline.{StateSample}
use tcp_visr.Engine.Tracker.Invariant.{Inv, observe_items_total}
use tcp_visr.Engine.Tracker.Results.{fail_fast_within, fail_fast_error, backstop_passed}
use tcp_visr.Engine.Tracker.Reported.{IsOrdered, into_connections-IsOrdered}
use tcp_visr.Engine.Track.Longest.{spare, without_front, IsLastGreatest, pop_longest_front-longest}
use tcp_visr.Engine.Tracker.Tally.{segments_of, bytes_of}
use tcp_visr.Engine.Tracker.Conservation.{segment_count, payload_bytes, observe_items-conserves}
use tcp_visr.Engine.Fixtures.{client, server, seg_of, session, full_config}

abbrev tiny : EngineConfig
tiny = record full_config { retention = fail_fast 1 }

abbrev summary : Option Tracker → Option (Bool × ℕ × List ℕ)
summary none = none
summary (some t) = some (t.overflowed, t.collected_samples, map (λ c. c.segments) t.conns)

full_run : summary (observe_items (new_tracker full_config) session) ≡ some (false, 36, 7 ∷ [])
unfolding observe_items eq_ip eq_endpoint leq_endpoint source destination fin syn rst ack_flag
    serial_lt serial_gt serial_diff rank advance_to endpoint_pair eq_pair leq_pair eq_id max_samples
    window seq_end serial_max serial_le new_metrics dir_state sample_dir opposite put_dirs is_data
    consumes_seq ack_advances or_insert send acknowledge outstanding classify_from classify
    advance_frontier queue_rtt pop_acked take_rtt evict_window push_window evict_to
    window_push_and_evict in_window windowed windowed_good scale_bps rates throughput_at in_flight
    sender_after receiver_after has_sack observe is_backward_reset is_bare_syn is_syn_ack
    advance_baseline sdir_opposite offset direction_of baseline account live_on apply_state snapshot
    unwrap_in push_data_point push_sack_points push_seq_points view evict_front max_index_from
    evictable pop_series pop_longest_front held should_collect evict_oldest_global admit
    store_admitted store record_sample record_state record_seq record_inflight record_rtt
    record_throughput record_seq_points collect_seq_points inflight_sample inflight_turn
    collect_inflight_at smooth srtt_of put_srtt rtt_sample collect_rtt_points throughput_sample
    throughput_turn collect_throughput_at wants_sample collect_all derive_sample new_tracker
    evict_conn evict_all evict_samples should_split opening new_track set_fin open_track focus
    record_snapshot create_instance join join_at join_or_split place observe_segment decay_turn
    decay_all emit_decay_samples survives retain_conns index_from has_pair evict_dead_connections
    observe_tick observe_item leq_conn into_connections lookup insert retain_keys insert_sorted
    sort_by ◌+ℤ◌ ◌-ℤ◌ wrap_i64
full_run = refl

tiny_run : summary (observe_items (new_tracker tiny) session) ≡ some (true, 1, 7 ∷ [])
unfolding observe_items eq_ip eq_endpoint leq_endpoint source destination fin syn rst ack_flag
    serial_lt serial_gt serial_diff rank advance_to endpoint_pair eq_pair leq_pair eq_id max_samples
    window seq_end serial_max serial_le new_metrics dir_state sample_dir opposite put_dirs is_data
    consumes_seq ack_advances or_insert send acknowledge outstanding classify_from classify
    advance_frontier queue_rtt pop_acked take_rtt evict_window push_window evict_to
    window_push_and_evict in_window windowed windowed_good scale_bps rates throughput_at in_flight
    sender_after receiver_after has_sack observe is_backward_reset is_bare_syn is_syn_ack
    advance_baseline sdir_opposite offset direction_of baseline account live_on apply_state snapshot
    unwrap_in push_data_point push_sack_points push_seq_points view evict_front max_index_from
    evictable pop_series pop_longest_front held should_collect evict_oldest_global admit
    store_admitted store record_sample record_state record_seq record_inflight record_rtt
    record_throughput record_seq_points collect_seq_points inflight_sample inflight_turn
    collect_inflight_at smooth srtt_of put_srtt rtt_sample collect_rtt_points throughput_sample
    throughput_turn collect_throughput_at wants_sample collect_all derive_sample new_tracker
    evict_conn evict_all evict_samples should_split opening new_track set_fin open_track focus
    record_snapshot create_instance join join_at join_or_split place observe_segment decay_turn
    decay_all emit_decay_samples survives retain_conns index_from has_pair evict_dead_connections
    observe_tick observe_item leq_conn into_connections lookup insert retain_keys insert_sorted
    sort_by ◌+ℤ◌ ◌-ℤ◌ wrap_i64
tiny_run = refl

-- The tracker after the session.
abbrev final : Tracker
final = (observe_items_total full_config session).0

observe_items_total_example :
    (t : Tracker) × (observe_items (new_tracker full_config) session ≡ some t)
    × Inv t
    × (t.config ≡ full_config)
observe_items_total_example = observe_items_total full_config session

into_connections-IsOrdered_example :
    IsOrdered (into_connections final)
    × Perm (into_connections final) (map view final.conns)
    × ((final.overflowed ≡ true)
        ⊎ ((ms : List ConnectionMetrics) × (into_metrics final ≡ ok ms)
            × (map (λ m. m.conn) ms ≡ into_connections final)))
into_connections-IsOrdered_example = into_connections-IsOrdered final

replay_window : window full_config.retention ≡ none
unfolding window
replay_window = refl

fail_fast_within_example : sum_of held final.conns ≤ max_samples full_config.retention
fail_fast_within_example =
    fail_fast_within full_config session final replay_window
      (observe_items_total full_config session).1

tiny_final : Tracker
tiny_final = (observe_items_total tiny session).0

tiny_reached : observe_items (new_tracker tiny) session ≡ some tiny_final
unfolding tiny_final
tiny_reached = (observe_items_total tiny session).1

tiny_window : window tiny.retention ≡ none
unfolding window
tiny_window = refl

tiny_limit : max_samples tiny.retention ≡ 1
unfolding max_samples
tiny_limit = refl

tiny_overflowed : tiny_final.overflowed ≡ true
tiny_overflowed =
    let same : some tiny_final.overflowed ≡ some true =
      ap (map_some (λ s. s.0)) (sym (ap summary tiny_reached) ∙ tiny_run) in
    cc

fail_fast_error_example :
    (into_metrics tiny_final
      ≡ sample_ceiling (max_samples tiny.retention + 1) (max_samples tiny.retention))
    × (into_timeline tiny_final
        ≡ sample_ceiling (max_samples tiny.retention + 1) (max_samples tiny.retention))
fail_fast_error_example =
    fail_fast_error tiny session tiny_final tiny_window tiny_reached tiny_overflowed

abbrev live_config : EngineConfig
live_config = record full_config { retention = evict 1000 1 }

live_window : window live_config.retention ≡ some 1000
unfolding window
live_window = refl

live_limit : max_samples live_config.retention ≡ 1
unfolding max_samples
live_limit = refl

abbrev opened : ConnTrack
opened =
    open_track (record { pair = record { low = client; high = server }; instance_no = 0 })
      (seg_of client server 0x02 99 0 0 0) client server

abbrev a_state : StateSample
a_state = record { t = 0; state = established; bytes_o2r = 0; bytes_r2o = 0 }

-- Another connection holds the one sample that the limit allows.
abbrev at_limit : Focus
at_limit = record { collected = 1; overflowed = false; conn = opened }

nothing_held :
    (length opened.states ≡ 0)
    × (opened.series ≡ [])
    × (opened.seq ≡ [])
    × (opened.inflight ≡ [])
    × (opened.rtt ≡ [])
    × (opened.throughput ≡ [])
unfolding eq_ip eq_endpoint leq_endpoint source destination fin syn rst ack_flag serial_lt serial_gt
    serial_diff rank advance_to endpoint_pair eq_pair leq_pair eq_id max_samples window seq_end
    serial_max serial_le new_metrics dir_state sample_dir opposite put_dirs is_data consumes_seq
    ack_advances or_insert send acknowledge outstanding classify_from classify advance_frontier
    queue_rtt pop_acked take_rtt evict_window push_window evict_to window_push_and_evict in_window
    windowed windowed_good scale_bps rates throughput_at in_flight sender_after receiver_after
    has_sack observe is_backward_reset is_bare_syn is_syn_ack advance_baseline sdir_opposite offset
    direction_of baseline account live_on apply_state snapshot unwrap_in push_data_point
    push_sack_points push_seq_points view evict_front max_index_from evictable pop_series
    pop_longest_front held should_collect evict_oldest_global admit store_admitted store
    record_sample record_state record_seq record_inflight record_rtt record_throughput
    record_seq_points collect_seq_points inflight_sample inflight_turn collect_inflight_at smooth
    srtt_of put_srtt rtt_sample collect_rtt_points throughput_sample throughput_turn
    collect_throughput_at wants_sample collect_all derive_sample new_tracker evict_conn evict_all
    evict_samples should_split opening new_track set_fin open_track focus record_snapshot
    create_instance join join_at join_or_split place observe_segment decay_turn decay_all
    emit_decay_samples survives retain_conns index_from has_pair evict_dead_connections observe_tick
    observe_item leq_conn into_connections lookup insert retain_keys insert_sorted sort_by ◌+ℤ◌ ◌-ℤ◌
    wrap_i64
nothing_held = (refl, refl, refl, refl, refl, refl)

backstop_passed_example :
    ((store live_config (push_state a_state) at_limit).collected
      ≡ suc (max_samples live_config.retention))
    × ((store live_config (push_state a_state) at_limit).conn ≡ push_state a_state opened)
backstop_passed_example =
    backstop_passed live_config 1000 (push_state a_state) at_limit live_window refl (sym live_limit)
      (let n = nothing_held.0 in omega arith) nothing_held.1 nothing_held.2 nothing_held.3
      nothing_held.4 nothing_held.5

-- A connection with two states gives one up.
abbrev two_states : ConnTrack
two_states = push_state a_state (push_state a_state opened)

pop_longest_front-longest_example :
    (All (λ n. n ≡ 0) (spare two_states) × (pop_longest_front two_states ≡ (two_states, false)))
    ⊎ ((k n : ℕ) × IsLastGreatest (spare two_states) k n
        × (0 < n)
        × (pop_longest_front two_states ≡ (without_front k two_states, true)))
pop_longest_front-longest_example = pop_longest_front-longest two_states

seven_segments : (segment_count session ≡ 7) × (payload_bytes session ≡ 40)
unfolding segment_count payload_bytes
seven_segments = (refl, refl)

observe_items-conserves_example :
    (sum_of segments_of final.conns ≡ segment_count session)
    × (sum_of bytes_of final.conns ≡ payload_bytes session)
observe_items-conserves_example =
    observe_items-conserves full_config session final replay_window
      (let n = seven_segments.0 in omega arith) (let n = seven_segments.1 in omega arith)
      (observe_items_total full_config session).1
