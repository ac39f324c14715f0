-- ===== src/Engine/Timeline.antt =====
-- crates/tcpvisr-engine/src/timeline.rs: the seekable timeline. `ConnSeries` is the tuple of a
-- connection and its five series; an iterator over the indices of the active entries is the list of
-- those entries.
pub mod Resolve
pub mod Times
pub mod Events
mod Tests
use tcp_visr.Base.{
  ℕ, zero, suc, Bool, true, false, ◌&&◌, leb, ltb, if◌then◌else◌, Option, none, some, List, [], ◌∷◌,
  ◌++◌, map, length, get_elem?, min, max, ℤ, sort_by, dedup, partition_point,
}
use tcp_visr.Core.Time.{Nanos}
use tcp_visr.Core.Metric.{SampleDir}
use tcp_visr.Engine.State.{ConnState, is_terminal}
use tcp_visr.Engine.Conn.{ConnId, eq_id, Connection}

pub data SeqKind : Type 0 where
  data_mark : Bool → Bool → SeqKind
  sack_mark : SeqKind

pub record SeqSample : Type 0 where
  pub t : Nanos
  pub dir : SampleDir
  pub rel : ℤ
  pub len : ℕ
  pub kind : SeqKind

pub record InFlightSample : Type 0 where
  pub t : Nanos
  pub dir : SampleDir
  pub bytes : ℕ

pub record RttSample : Type 0 where
  pub t : Nanos
  pub dir : SampleDir
  pub rtt : Nanos
  pub srtt : Nanos

pub record ThroughputSample : Type 0 where
  pub t : Nanos
  pub dir : SampleDir
  pub throughput_bps : ℕ
  pub goodput_bps : ℕ

pub record StateSample : Type 0 where
  pub t : Nanos
  pub state : ConnState
  pub bytes_o2r : ℕ
  pub bytes_r2o : ℕ

pub record ConnSeries : Type 0 where
  pub conn : Connection
  pub states : List StateSample
  pub seq : List SeqSample
  pub inflight : List InFlightSample
  pub rtt : List RttSample
  pub throughput : List ThroughputSample

pub record AsOf : Type 0 where
  pub id : ConnId
  pub state : ConnState
  pub bytes_o2r : ℕ
  pub bytes_r2o : ℕ

pub record Entry : Type 0 where
  pub conn : Connection
  pub samples : List StateSample
  pub seq : List SeqSample
  pub inflight : List InFlightSample
  pub rtt : List RttSample
  pub throughput : List ThroughputSample
  pub effective_end : Nanos

pub record Timeline : Type 0 where
  pub entries : List Entry
  pub start : Nanos
  pub end : Nanos
  pub event_times : List Nanos

-- `max().unwrap_or(Nanos(0))` and `min().unwrap_or(Nanos(0))`.
unfoldable max_or_zero : List ℕ → ℕ
max_or_zero [] = 0
max_or_zero (x ∷ xs) = max x (max_or_zero xs)

unfoldable min_from : ℕ → List ℕ → ℕ
min_from a [] = a
min_from a (x ∷ xs) = min_from (min a x) xs

unfoldable min_or_zero : List ℕ → ℕ
min_or_zero [] = 0
min_or_zero (x ∷ xs) = min_from x xs

abbrev pub times_of : List StateSample → List Nanos
times_of = map λ s. s.t

-- Every state sample's time, connection by connection.
pub state_times : List ConnSeries → List Nanos
state_times [] = []
state_times (c ∷ cs) = times_of c.states ++ state_times cs

abbrev pub by_time_state : StateSample → StateSample → Bool
by_time_state a b = leb a.t b.t

abbrev pub by_time_seq : SeqSample → SeqSample → Bool
by_time_seq a b = leb a.t b.t

abbrev pub by_time_inflight : InFlightSample → InFlightSample → Bool
by_time_inflight a b = leb a.t b.t

abbrev pub by_time_rtt : RttSample → RttSample → Bool
by_time_rtt a b = leb a.t b.t

abbrev pub by_time_throughput : ThroughputSample → ThroughputSample → Bool
by_time_throughput a b = leb a.t b.t

pub entry_of : Nanos → ConnSeries → Entry
entry_of end c = record {
  conn = c.conn;
  samples = sort_by by_time_state c.states;
  seq = sort_by by_time_seq c.seq;
  inflight = sort_by by_time_inflight c.inflight;
  rtt = sort_by by_time_rtt c.rtt;
  throughput = sort_by by_time_throughput c.throughput;
  effective_end = if is_terminal c.conn.state then c.conn.last_at else end;
}

-- The times pushed in the loop over the connections: those of the sorted samples.
pub pushed_times : List Entry → List Nanos
pushed_times [] = []
pushed_times (e ∷ es) = times_of e.samples ++ pushed_times es

pub with_seq_ending : List ConnSeries → Nanos → Timeline
with_seq_ending conns end =
    let entries = map (entry_of end) conns in
    record {
      entries = entries;
      start = min_or_zero (state_times conns);
      end = end;
      event_times = dedup (sort_by leb (pushed_times entries));
    }

abbrev pub last_times : List ConnSeries → List Nanos
last_times = map λ c. c.conn.last_at

pub with_seq : List ConnSeries → Timeline
unfolding with_seq_ending
with_seq conns = with_seq_ending conns (max_or_zero (last_times conns))

-- `Timeline::new`
abbrev pub state_only : Connection × List StateSample → ConnSeries
state_only (c, s) = record {
  conn = c;
  states = s;
  seq = [];
  inflight = [];
  rtt = [];
  throughput = [];
}

pub new_timeline : List (Connection × List StateSample) → Timeline
unfolding with_seq
new_timeline conns = with_seq (map state_only conns)

unfoldable pub bounds : Timeline → Nanos × Nanos
bounds tl = (tl.start, tl.end)

unfoldable connection_count : Timeline → ℕ
connection_count tl = length tl.entries

unfoldable pub connections : Timeline → List Connection
connections tl = map (λ e. e.conn) tl.entries

-- `iter().find(|e| e.conn.id == id)`
unfoldable pub find_entry : ConnId → List Entry → Option Entry
find_entry id [] = none
find_entry id (e ∷ es) = if eq_id e.conn.id id then some e else find_entry id es

unfoldable pub seq_series : Timeline → ConnId → List SeqSample
seq_series tl id = elim (find_entry id tl.entries) [ none ↦ [] | some e ↦ e.seq ]

unfoldable pub inflight_series : Timeline → ConnId → List InFlightSample
inflight_series tl id = elim (find_entry id tl.entries) [ none ↦ [] | some e ↦ e.inflight ]

unfoldable pub rtt_series : Timeline → ConnId → List RttSample
rtt_series tl id = elim (find_entry id tl.entries) [ none ↦ [] | some e ↦ e.rtt ]

unfoldable pub throughput_series : Timeline → ConnId → List ThroughputSample
throughput_series tl id = elim (find_entry id tl.entries) [ none ↦ [] | some e ↦ e.throughput ]

unfoldable pub x_span : Timeline → ConnId → Option (Nanos × Nanos)
x_span tl id = elim (find_entry id tl.entries) [
  | none ↦ none
  | some e ↦ some (e.conn.opened_at, e.effective_end)
]

pub is_active : Nanos → Entry → Bool
is_active t e = leb e.conn.opened_at t && leb t e.effective_end

pub active_entries : Nanos → List Entry → List Entry
active_entries t [] = []
active_entries t (e ∷ es) = if is_active t e then e ∷ active_entries t es else active_entries t es

unfoldable active_at : Timeline → Nanos → List ConnId
active_at tl t = map (λ e. e.conn.id) (active_entries t tl.entries)

-- `xs.get(k.checked_sub(1)?)`
pub get_before {ℓ} : {A : Type ℓ} → List A → ℕ → Option A
get_before xs zero = none
get_before xs (suc k) = get_elem? xs k

-- The last sample at or before `t`.
pub sample_at : Nanos → List StateSample → Option StateSample
unfolding get_before
sample_at t samples = get_before samples (partition_point (λ s. leb s.t t) samples)

pub as_of : Entry → StateSample → AsOf
as_of e s = record {
  id = e.conn.id;
  state = s.state;
  bytes_o2r = s.bytes_o2r;
  bytes_r2o = s.bytes_r2o;
}

-- `filter_map` over the active entries.
pub resolve_entries : Nanos → List Entry → List AsOf
resolve_entries t [] = []
resolve_entries t (e ∷ es) = elim (sample_at t e.samples) [
  | none ↦ resolve_entries t es
  | some s ↦ as_of e s ∷ resolve_entries t es
]

pub resolve_at : Timeline → Nanos → List AsOf
unfolding resolve_entries
resolve_at tl t = resolve_entries t (active_entries t tl.entries)

pub next_event : Timeline → Nanos → Option Nanos
next_event tl t = get_elem? tl.event_times (partition_point (λ x. leb x t) tl.event_times)

pub prev_event : Timeline → Nanos → Option Nanos
unfolding get_before
prev_event tl t = get_before tl.event_times (partition_point (λ x. ltb x t) tl.event_times)
