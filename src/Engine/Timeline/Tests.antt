-- ===== src/Engine/Timeline/Tests.antt =====
-- The resolution at a cursor time, at one connection.
use tcp_visr.Base.{◌≡◌, List, [], ◌∷◌, some, false}
use tcp_visr.Engine.State.{established, fin_wait}
use tcp_visr.Engine.Conn.{Connection}
use tcp_visr.Engine.Timeline.{
  StateSample, ConnSeries, with_seq_ending, resolve_at, next_event, prev_event, state_times,
}
use tcp_visr.Engine.Timeline.Resolve.{latest, resolve_scan, resolve_at-scan}
use tcp_visr.Engine.Timeline.Times.{fold_times}
use tcp_visr.Engine.Timeline.Events.{
  least_after, greatest_before, next_event-least_after, prev_event-greatest_before,
}
use tcp_visr.Engine.Fixtures.{client, server}

-- Recorded out of order of time.
abbrev recorded : List StateSample
recorded =
    record { t = 30; state = fin_wait; bytes_o2r = 7; bytes_r2o = 0 }
    ∷ record { t = 10; state = established; bytes_o2r = 5; bytes_r2o = 0 }
    ∷ []

abbrev reported : Connection
reported = record {
  id = record { pair = record { low = client; high = server }; instance_no = 0 };
  state = fin_wait;
  origin = client;
  responder = server;
  origin_inferred = false;
  opened_at = 10;
  last_at = 30;
  bytes_o2r = 7;
  bytes_r2o = 0;
  segments = 2;
}

abbrev one : ConnSeries
one = record {
  conn = reported;
  states = recorded;
  seq = [];
  inflight = [];
  rtt = [];
  throughput = [];
}

resolve_at-scan_example :
    resolve_at (with_seq_ending (one ∷ []) 40) 20
    ≡ record { id = reported.id; state = established; bytes_o2r = 5; bytes_r2o = 0 } ∷ []
unfolding resolve_scan latest
resolve_at-scan_example = resolve_at-scan (one ∷ []) 40 20

next_event-least_after_example : next_event (with_seq_ending (one ∷ []) 40) 10 ≡ some 30
unfolding least_after fold_times state_times
next_event-least_after_example = next_event-least_after (one ∷ []) 40 10

prev_event-greatest_before_example : prev_event (with_seq_ending (one ∷ []) 40) 30 ≡ some 10
unfolding greatest_before fold_times state_times
prev_event-greatest_before_example = prev_event-greatest_before (one ∷ []) 40 30
