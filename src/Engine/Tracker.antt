-- ===== src/Engine/Tracker.antt =====
-- crates/tcpvisr-engine/src/tracker.rs, `Tracker`: connections, the index of the live instance of
-- each pair, and the fold of the items. `none` of a step is the panic of an index out of bounds.
pub mod Clock
pub mod Index
pub mod Results
pub mod Reported
pub mod Steps
pub mod Invariant
pub mod Tally
pub mod Conservation
pub mod Count
mod Tests
use tcp_visr.Base.{
  map_some, ℕ, zero, suc, ◌+◌, Bool, true, false, not, ◌&&◌, ◌||◌, ltb, leb, ◌==◌, if◌then◌else◌,
  Option, none, some, List, [], ◌∷◌, ◌++◌, map, length, get_elem?, set, snoc, max, saturating_sub,
  add_u32, lookup, insert, retain_keys, sort_by, is_some, sum_of,
}
use tcp_visr.Core.Time.{Nanos}
use tcp_visr.Core.Seq.{TcpSeq}
use tcp_visr.Core.Flow.{Endpoint, source, destination}
use tcp_visr.Core.Segment.{TcpFlags, Segment, Item, segment, tick, fin, rst}
use tcp_visr.Core.Metric.{MetricSample}
use tcp_visr.Engine.State.{
  ConnState, syn_sent, syn_received, established, fin_wait, reset, is_established, is_terminal,
}
use tcp_visr.Engine.Conn.{
  EndpointPair, endpoint_pair, eq_pair, leq_pair, ConnId, Direction, o2r, r2o, Connection,
}
use tcp_visr.Engine.Conn.Order.{pair_eq}
use tcp_visr.Engine.Config.{EngineConfig, max_samples, window}
use tcp_visr.Engine.Metrics.{new_metrics}
use tcp_visr.Engine.Timeline.{ConnSeries, Timeline, with_seq, with_seq_ending}
use tcp_visr.Engine.Track.{
  ConnTrack, is_backward_reset, is_bare_syn, is_syn_ack, direction_of, baseline, account,
  apply_state, snapshot, view, evict_front, held, default_unwrap,
}
use tcp_visr.Engine.Record.{
  Focus, record_state, derive_sample, collect_inflight_at, collect_throughput_at,
}

pub record Tracker : Type 0 where
  pub config : EngineConfig
  pub conns : List ConnTrack
  pub live : List (EndpointPair × ℕ)
  pub next_instance : List (EndpointPair × ℕ)
  pub collected_samples : ℕ
  pub overflowed : Bool
  pub now : Nanos

-- `Tracker::new`
pub new_tracker : EngineConfig → Tracker
new_tracker config = record {
  config = config;
  conns = [];
  live = [];
  next_instance = [];
  collected_samples = 0;
  overflowed = false;
  now = 0;
}

-- The body of the loop of `evict_samples`.
pub evict_conn : ℕ → ConnTrack → ConnTrack
evict_conn horizon c = record c {
  states = evict_front (λ s. s.t) horizon 1 c.states;
  series = evict_front (λ s. s.t) horizon 0 c.series;
  seq = evict_front (λ s. s.t) horizon 0 c.seq;
  inflight = evict_front (λ s. s.t) horizon 0 c.inflight;
  rtt = evict_front (λ s. s.t) horizon 0 c.rtt;
  throughput = evict_front (λ s. s.t) horizon 0 c.throughput;
}

-- The count goes down by one for each sample that is removed.
pub evict_all : ℕ → List ConnTrack → ℕ → List ConnTrack × ℕ
evict_all horizon [] count = ([], count)
evict_all horizon (c ∷ cs) count =
    let c' = evict_conn horizon c in
    let rest = evict_all horizon cs (saturating_sub count (saturating_sub (held c) (held c'))) in
    (c' ∷ rest.0, rest.1)

evict_within : Option Nanos → Tracker → Tracker
evict_within none t = t
evict_within (some w) t =
    let r = evict_all (saturating_sub t.now w) t.conns t.collected_samples in
    record t { conns = r.0; collected_samples = r.1 }

pub evict_samples : Tracker → Tracker
unfolding evict_within
evict_samples t = evict_within (window t.config.retention) t

abbrev is_backward : EngineConfig → Segment → Option TcpSeq → Bool
is_backward cfg seg none = false
is_backward cfg seg (some base) = is_backward_reset base seg.seq cfg.reset_threshold

pub should_split : EngineConfig → ConnTrack → Segment → Endpoint → Bool
should_split cfg track seg src =
    if is_bare_syn seg.flags
    then (is_terminal track.state || ltb cfg.dead_after (saturating_sub seg.ts track.last_at))
    else if is_established track.state
    then is_backward cfg seg (baseline track (direction_of track src))
    else false

-- How the first segment of an instance is read: origin, responder, whether they are inferred, state.
pub record Opening : Type 0 where
  pub origin : Endpoint
  pub responder : Endpoint
  pub inferred : Bool
  pub state : ConnState

pub opening : TcpFlags → Endpoint → Endpoint → Opening
opening flags src dst =
    if is_bare_syn flags
    then record { origin = src; responder = dst; inferred = false; state = syn_sent }
    else if is_syn_ack flags
    then record { origin = dst; responder = src; inferred = false; state = syn_received }
    else if rst flags
    then record { origin = src; responder = dst; inferred = true; state = reset }
    else if fin flags
    then record { origin = src; responder = dst; inferred = true; state = fin_wait }
    else record { origin = src; responder = dst; inferred = true; state = established }

abbrev or_zero : Option ℕ → ℕ
or_zero none = 0
or_zero (some n) = n

-- `let mut track = ConnTrack { … }`
pub new_track : ConnId → Segment → Opening → ConnTrack
new_track id seg o = record {
  id = id;
  state = o.state;
  origin = o.origin;
  responder = o.responder;
  origin_inferred = o.inferred;
  opened_at = seg.ts;
  last_at = seg.ts;
  bytes_o2r = 0;
  bytes_r2o = 0;
  segments = 0;
  fin_o2r = false;
  fin_r2o = false;
  base_o2r = none;
  base_r2o = none;
  metrics = new_metrics;
  series = [];
  states = [];
  seq = [];
  inflight = [];
  rtt = [];
  throughput = [];
  srtt_o2r = none;
  srtt_r2o = none;
  unwrap_o2r = default_unwrap;
  unwrap_r2o = default_unwrap;
}

pub set_fin : Direction → ConnTrack → ConnTrack
set_fin o2r c = record c { fin_o2r = true }
set_fin r2o c = record c { fin_r2o = true }

-- The new instance before anything is recorded.
pub open_track : ConnId → Segment → Endpoint → Endpoint → ConnTrack
open_track id seg src dst =
    let track = new_track id seg (opening seg.flags src dst) in
    let dir = direction_of track src in
    let accounted = account seg dir track in
    if fin seg.flags then set_fin dir accounted else accounted

pub focus : Tracker → ConnTrack → Focus
focus t c = record { collected = t.collected_samples; overflowed = t.overflowed; conn = c }

pub record_snapshot : EngineConfig → Segment → Focus → Focus
record_snapshot cfg seg f =
    if cfg.collect_state_timeline then record_state cfg (snapshot f.conn seg.ts) f else f

pub create_instance : Tracker → EndpointPair → Segment → Endpoint → Endpoint → Tracker
create_instance t pair seg src dst =
    let number = or_zero (lookup pair t.next_instance) in
    let track = open_track (record { pair = pair; instance_no = number }) seg src dst in
    let dir = direction_of track src in
    let f = record_snapshot t.config seg (derive_sample t.config seg dir (focus t track)) in
    record t {
      conns = snoc t.conns f.conn;
      live = insert pair (length t.conns) t.live;
      next_instance = insert pair (add_u32 number 1) t.next_instance;
      collected_samples = f.collected;
      overflowed = f.overflowed;
    }

-- The segment joins the connection `c`, which stands at `idx`.
pub join : EngineConfig → Segment → Endpoint → Focus → Focus
join cfg seg src f =
    let dir = direction_of f.conn src in
    let c = apply_state seg dir (account seg dir f.conn) in
    derive_sample cfg seg dir (record_snapshot cfg seg (record f { conn = c }))

pub join_at : Tracker → ℕ → ConnTrack → Segment → Endpoint → Tracker
join_at t idx c seg src =
    let f = join t.config seg src (focus t c) in
    record t {
      conns = set t.conns idx f.conn;
      collected_samples = f.collected;
      overflowed = f.overflowed;
    }

pub join_or_split : Tracker → ℕ → Option ConnTrack → Segment → Option Tracker
join_or_split t idx none seg = none
join_or_split t idx (some c) seg =
    let src = source seg.flow in
    let dst = destination seg.flow in
    some (
      if should_split t.config c seg src
      then create_instance t (endpoint_pair src dst) seg src dst
      else join_at t idx c seg src)

pub place : Tracker → Option ℕ → Segment → Option Tracker
place t none seg =
    let src = source seg.flow in
    let dst = destination seg.flow in some (create_instance t (endpoint_pair src dst) seg src dst)
place t (some idx) seg = join_or_split t idx (get_elem? t.conns idx) seg

pub observe_segment : Tracker → Segment → Option Tracker
observe_segment t seg =
    place t (lookup (endpoint_pair (source seg.flow) (destination seg.flow)) t.live) seg

-- One turn of the loop of `emit_decay_samples`.
pub decay_turn : EngineConfig → Nanos → Focus → Focus
decay_turn cfg t f =
    if ltb cfg.dead_after (saturating_sub t f.conn.last_at)
    then f
    else collect_inflight_at cfg t (collect_throughput_at cfg t f)

pub decay_all : EngineConfig → Nanos → ℕ → Bool → List ConnTrack → List ConnTrack × ℕ × Bool
decay_all cfg t collected overflowed [] = ([], collected, overflowed)
decay_all cfg t collected overflowed (c ∷ cs) =
    let f =
      decay_turn cfg t (record { collected = collected; overflowed = overflowed; conn = c }) in
    let rest = decay_all cfg t f.collected f.overflowed cs in (f.conn ∷ rest.0, rest.1, rest.2)

pub emit_decay_samples : Tracker → Nanos → Tracker
emit_decay_samples t at =
    if t.overflowed
    then t
    else (let r = decay_all t.config at t.collected_samples t.overflowed t.conns in
        record t { conns = r.0; collected_samples = r.1; overflowed = r.2 })

-- What `retain` keeps.
pub survives : EngineConfig → Nanos → Nanos → ConnTrack → Bool
survives cfg now horizon c = not (
    (is_terminal c.state || ltb cfg.dead_after (saturating_sub now c.last_at))
    && ltb c.last_at horizon)

pub retain_conns : (ConnTrack → Bool) → List ConnTrack → List ConnTrack
retain_conns p [] = []
retain_conns p (c ∷ cs) = if p c then c ∷ retain_conns p cs else retain_conns p cs

-- The rebuilt index: a later connection of a pair replaces an earlier one.
pub index_from : ℕ → List ConnTrack → List (EndpointPair × ℕ) → List (EndpointPair × ℕ)
index_from i [] m = m
index_from i (c ∷ cs) m = index_from (suc i) cs (insert c.id.pair i m)

pub has_pair : List ConnTrack → EndpointPair → Bool
has_pair [] pair = false
has_pair (c ∷ cs) pair = eq_pair c.id.pair pair || has_pair cs pair

evict_dead_within : Option Nanos → Tracker → Tracker
evict_dead_within none t = t
evict_dead_within (some w) t =
    let kept = retain_conns (survives t.config t.now (saturating_sub t.now w)) t.conns in
    if length kept == length t.conns then t else record t {
      conns = kept;
      live = index_from 0 kept [];
      next_instance = retain_keys (has_pair kept) t.next_instance;
      collected_samples = sum_of held kept;
    }

pub evict_dead_connections : Tracker → Tracker
unfolding evict_dead_within
evict_dead_connections t = evict_dead_within (window t.config.retention) t

pub observe_tick : Tracker → Nanos → Tracker
observe_tick t at =
    if not (is_some (window t.config.retention))
    then t
    else (let later = record t { now = max t.now at } in
        evict_dead_connections (evict_samples (emit_decay_samples later later.now)))

pub observe_item : Tracker → Item → Option Tracker
observe_item t (segment seg) =
    map_some evict_samples (observe_segment (record t { now = max t.now seg.ts }) seg)
observe_item t (tick at) = some (observe_tick t at)

-- The order `(opened_at, pair, instance)`.
pub leq_conn : Connection → Connection → Bool
leq_conn a b =
    ltb a.opened_at b.opened_at
    || (a.opened_at == b.opened_at
        && (not (leq_pair b.id.pair a.id.pair)
            || (eq_pair a.id.pair b.id.pair && leb a.id.instance_no b.id.instance_no)))

pub into_connections : Tracker → List Connection
into_connections t = sort_by leq_conn (map view t.conns)

pub record ConnectionMetrics : Type 0 where
  pub conn : Connection
  pub series : List MetricSample

-- `Result<_, MetricError>`; the error gives the samples and the limit.
pub data MetricResult (A : Type 0) : Type 0 where
  ok : A → MetricResult A
  sample_ceiling : ℕ → ℕ → MetricResult A

pub into_metrics : Tracker → MetricResult (List ConnectionMetrics)
into_metrics t =
    if t.overflowed
    then sample_ceiling (t.collected_samples + 1) (max_samples t.config.retention)
    else ok (
        sort_by (λ a b. leq_conn a.conn b.conn)
          (map (λ c. record { conn = view c; series = c.series }) t.conns))

unfoldable conn_series : ConnTrack → ConnSeries
conn_series c = record {
  conn = view c;
  states = c.states;
  seq = c.seq;
  inflight = c.inflight;
  rtt = c.rtt;
  throughput = c.throughput;
}

pub into_timeline : Tracker → MetricResult Timeline
into_timeline t =
    if t.overflowed
    then sample_ceiling (t.collected_samples + 1) (max_samples t.config.retention)
    else ok (with_seq (map conn_series t.conns))

horizon_of : Option Nanos → Nanos → Nanos
horizon_of none now = now
horizon_of (some w) now = saturating_sub now w

pub retention_horizon : Tracker → Nanos
unfolding horizon_of
retention_horizon t = horizon_of (window t.config.retention) t.now

pub snapshot_timeline : Tracker → Timeline
snapshot_timeline t = with_seq_ending (map conn_series t.conns) t.now

-- The loop of `track`.
unfoldable pub observe_items : Tracker → List Item → Option Tracker
observe_items t [] = some t
observe_items t (i ∷ is) = elim (observe_item t i) [ none ↦ none | some u ↦ observe_items u is ]

unfoldable pub track : List Item → EngineConfig → Option (List Connection)
track items config = map_some into_connections (observe_items (new_tracker config) items)
