-- ===== src/Engine/Record.antt =====
-- crates/tcpvisr-engine/src/tracker.rs, the `record_*` and `collect_*` methods: they read the
-- configuration and write one connection and the tracker's sample count and overflow flag. `Focus`
-- holds those; `self.conns[idx]` is its connection, since each call keeps to one index.
pub mod Stored
pub mod Derive
pub mod Collect
use tcp_visr.Base.{
  ℕ, zero, suc, ◌+◌, ◌*◌, ◌/◌, ◌-◌, Bool, true, false, not, ◌&&◌, ◌||◌, ltb, leb, if◌then◌else◌,
  Option, none, some, List, [], ◌∷◌, snoc, saturating_sub, saturate_u64, is_some,
}
use tcp_visr.Core.Time.{Nanos}
use tcp_visr.Core.Segment.{Segment}
use tcp_visr.Core.Metric.{SampleDir, origin_to_responder, responder_to_origin, MetricSample}
use tcp_visr.Engine.Conn.{ConnId, eq_id, Direction, o2r, r2o}
use tcp_visr.Engine.Config.{
  EngineConfig, SeriesCollection, none_collected, all_collected, only, max_samples, window,
}
use tcp_visr.Engine.Metrics.{MetricState, observe, in_flight, throughput_at, sample_dir}
use tcp_visr.Engine.Timeline.{SeqSample, InFlightSample, RttSample, ThroughputSample, StateSample}
use tcp_visr.Engine.Track.{ConnTrack, sdir_opposite, push_seq_points, pop_longest_front}

pub record Focus : Type 0 where
  pub collected : ℕ
  pub overflowed : Bool
  pub conn : ConnTrack

wanted : SeriesCollection → ConnId → Bool
wanted none_collected id = false
wanted all_collected id = true
wanted (only target) id = eq_id target id

unfoldable pub should_collect : EngineConfig → ConnId → Bool
unfolding wanted
should_collect cfg id = wanted cfg.series_collection id

unfoldable pub evict_oldest_global : Focus → Focus
evict_oldest_global f =
    let r = pop_longest_front f.conn in
    if r.1
    then record f { conn = r.0; collected = saturating_sub f.collected 1 }
    else record f { conn = r.0 }

unfoldable pub admit : EngineConfig → Focus → Focus × Bool
admit cfg f =
    if leb (max_samples cfg.retention) f.collected
    then (if is_some (window cfg.retention)
        then (let g = evict_oldest_global f in (record g { collected = g.collected + 1 }, true))
        else (record f { overflowed = true }, false))
    else (record f { collected = f.collected + 1 }, true)

-- `if self.admit(idx) { push }`
unfoldable pub store_admitted : EngineConfig → (ConnTrack → ConnTrack) → Focus → Focus
store_admitted cfg push f =
    let r = admit cfg f in if r.1 then record r.0 { conn = push r.0.conn } else r.0

-- The same behind `if self.overflowed { return; }`.
unfoldable pub store : EngineConfig → (ConnTrack → ConnTrack) → Focus → Focus
store cfg push f = if f.overflowed then f else store_admitted cfg push f

abbrev pub push_sample : MetricSample → ConnTrack → ConnTrack
push_sample s c = record c { series = snoc c.series s }

abbrev pub push_state : StateSample → ConnTrack → ConnTrack
push_state s c = record c { states = snoc c.states s }

abbrev pub push_seq : SeqSample → ConnTrack → ConnTrack
push_seq s c = record c { seq = snoc c.seq s }

abbrev pub push_inflight : InFlightSample → ConnTrack → ConnTrack
push_inflight s c = record c { inflight = snoc c.inflight s }

abbrev pub push_rtt : RttSample → ConnTrack → ConnTrack
push_rtt s c = record c { rtt = snoc c.rtt s }

abbrev pub push_throughput : ThroughputSample → ConnTrack → ConnTrack
push_throughput s c = record c { throughput = snoc c.throughput s }

unfoldable pub record_sample : EngineConfig → MetricSample → Focus → Focus
record_sample cfg s f =
    if should_collect cfg f.conn.id then store_admitted cfg (push_sample s) f else f

unfoldable pub record_state : EngineConfig → StateSample → Focus → Focus
record_state cfg s = store cfg (push_state s)

unfoldable pub record_seq : EngineConfig → SeqSample → Focus → Focus
record_seq cfg s = store cfg (push_seq s)

unfoldable pub record_inflight : EngineConfig → InFlightSample → Focus → Focus
record_inflight cfg s = store cfg (push_inflight s)

unfoldable pub record_rtt : EngineConfig → RttSample → Focus → Focus
record_rtt cfg s = store cfg (push_rtt s)

unfoldable pub record_throughput : EngineConfig → ThroughputSample → Focus → Focus
record_throughput cfg s = store cfg (push_throughput s)

-- `for p in points { self.record_seq(idx, p); }`
unfoldable pub record_seq_points : EngineConfig → List SeqSample → Focus → Focus
record_seq_points cfg [] f = f
record_seq_points cfg (p ∷ ps) f = record_seq_points cfg ps (record_seq cfg p f)

unfoldable pub collect_seq_points :
    EngineConfig → Segment → Direction → MetricSample → Focus → Focus
collect_seq_points cfg seg dir sample f =
    if f.overflowed || not cfg.collect_seq_timeline
    then f
    else (let r = push_seq_points seg dir sample f.conn in
        record_seq_points cfg r.1 (record f { conn = r.0 }))

-- One turn of the loop over the directions.
unfoldable pub inflight_sample : EngineConfig → Nanos → Direction → Option ℕ → Focus → Focus
inflight_sample cfg t d none f = f
inflight_sample cfg t d (some bytes) f =
    record_inflight cfg (record { t = t; dir = sample_dir d; bytes = bytes }) f

unfoldable pub inflight_turn : EngineConfig → Nanos → Direction → Focus → Focus
inflight_turn cfg t d f = inflight_sample cfg t d (in_flight f.conn.metrics d) f

unfoldable pub collect_inflight_at : EngineConfig → Nanos → Focus → Focus
collect_inflight_at cfg t f =
    if f.overflowed || not cfg.collect_inflight_timeline
    then f
    else inflight_turn cfg t r2o (inflight_turn cfg t o2r f)

-- The smoothed round trip of RFC 6298 with weight 1/8.
unfoldable pub smooth : Option Nanos → Nanos → Nanos
smooth none rtt = rtt
smooth (some prev) rtt = saturate_u64 ((7 * prev + rtt) / 8)

-- `srtt[mi]`
unfoldable pub srtt_of : SampleDir → ConnTrack → Option Nanos
srtt_of origin_to_responder c = c.srtt_o2r
srtt_of responder_to_origin c = c.srtt_r2o

unfoldable pub put_srtt : SampleDir → Nanos → ConnTrack → ConnTrack
put_srtt origin_to_responder v c = record c { srtt_o2r = some v }
put_srtt responder_to_origin v c = record c { srtt_r2o = some v }

unfoldable pub rtt_sample : EngineConfig → MetricSample → Option Nanos → Focus → Focus
rtt_sample cfg sample none f = f
rtt_sample cfg sample (some rtt) f =
    let m = sdir_opposite sample.dir in
    let srtt = smooth (srtt_of m f.conn) rtt in
    record_rtt cfg (record { t = sample.t; dir = m; rtt = rtt; srtt = srtt })
      (record f { conn = put_srtt m srtt f.conn })

unfoldable pub collect_rtt_points : EngineConfig → MetricSample → Focus → Focus
collect_rtt_points cfg sample f =
    if f.overflowed || not cfg.collect_rtt_timeline then f else rtt_sample cfg sample sample.rtt f

unfoldable pub throughput_sample : EngineConfig → Nanos → Direction → Option (ℕ × ℕ) → Focus → Focus
throughput_sample cfg t d none f = f
throughput_sample cfg t d (some (total, good)) f =
    record_throughput cfg
      (record { t = t; dir = sample_dir d; throughput_bps = total; goodput_bps = good }) f

unfoldable pub throughput_turn : EngineConfig → Nanos → Direction → Focus → Focus
throughput_turn cfg t d f = throughput_sample cfg t d (throughput_at f.conn.metrics d t cfg) f

unfoldable pub collect_throughput_at : EngineConfig → Nanos → Focus → Focus
collect_throughput_at cfg t f =
    if f.overflowed || not cfg.collect_throughput_timeline
    then f
    else throughput_turn cfg t r2o (throughput_turn cfg t o2r f)

-- Whether any series wants the sample of a segment of this connection.
unfoldable pub wants_sample : EngineConfig → ConnId → Bool
wants_sample cfg id =
    should_collect cfg id
    || (cfg.collect_seq_timeline
        || (cfg.collect_inflight_timeline
            || (cfg.collect_rtt_timeline || cfg.collect_throughput_timeline)))

-- The derivation of one segment: `metrics.observe`, then each collector in turn.
unfoldable pub collect_all : EngineConfig → Segment → Direction → MetricSample → Focus → Focus
collect_all cfg seg dir sample f =
    let kept = if should_collect cfg f.conn.id then record_sample cfg sample f else f in
    collect_throughput_at cfg seg.ts (
      collect_rtt_points cfg sample
        (collect_inflight_at cfg seg.ts (collect_seq_points cfg seg dir sample kept)))

unfoldable pub derive_sample : EngineConfig → Segment → Direction → Focus → Focus
derive_sample cfg seg dir f =
    if not f.overflowed && wants_sample cfg f.conn.id
    then (let r = observe f.conn.metrics seg dir cfg in
        collect_all cfg seg dir r.1 (record f { conn = record f.conn { metrics = r.0 } }))
    else f
