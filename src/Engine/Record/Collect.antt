-- ===== src/Engine/Record/Collect.antt =====
-- Each collector is a `Stored` step.
use tcp_visr.Base.{ℕ, ◌≡◌, refl, ◌||◌, not, Option, none, some, List, [], ◌∷◌, arith, length-snoc}
use tcp_visr.Core.Time.{Nanos}
use tcp_visr.Core.Metric.{SampleDir, origin_to_responder, responder_to_origin, MetricSample}
use tcp_visr.Engine.Conn.{Direction, o2r, r2o}
use tcp_visr.Engine.Config.{EngineConfig}
use tcp_visr.Engine.Metrics.{in_flight, throughput_at}
use tcp_visr.Engine.Timeline.{SeqSample, InFlightSample, RttSample, ThroughputSample, StateSample}
use tcp_visr.Engine.Track.{ConnTrack, held, view, life, sdir_opposite}
use tcp_visr.Engine.Record.{
  Focus, push_sample, push_state, push_seq, push_inflight, push_rtt, push_throughput, store,
  record_sample, record_state, record_seq, record_inflight, record_rtt, record_throughput,
  record_seq_points, inflight_sample, inflight_turn, collect_inflight_at, rtt_sample, srtt_of,
  put_srtt, smooth, collect_rtt_points, throughput_sample, throughput_turn, collect_throughput_at,
  should_collect,
}
use tcp_visr.Engine.Record.Stored.{
  Stored, Stored-refl, Stored-trans, Stored-if, Stored-quiet, Pushes, store_admitted-Stored,
  store-Stored,
}

push_sample-Pushes : (s : MetricSample) → Pushes (push_sample s)
unfolding held view
push_sample-Pushes s = record {
  one = λ c. omega (arith, length-snoc c.series s);
  viewed = λ c. refl;
  lived = λ c. refl;
}

push_state-Pushes : (s : StateSample) → Pushes (push_state s)
unfolding held view
push_state-Pushes s = record {
  one = λ c. omega (arith, length-snoc c.states s);
  viewed = λ c. refl;
  lived = λ c. refl;
}

push_seq-Pushes : (s : SeqSample) → Pushes (push_seq s)
unfolding held view
push_seq-Pushes s = record {
  one = λ c. omega (arith, length-snoc c.seq s);
  viewed = λ c. refl;
  lived = λ c. refl;
}

push_inflight-Pushes : (s : InFlightSample) → Pushes (push_inflight s)
unfolding held view
push_inflight-Pushes s = record {
  one = λ c. omega (arith, length-snoc c.inflight s);
  viewed = λ c. refl;
  lived = λ c. refl;
}

push_rtt-Pushes : (s : RttSample) → Pushes (push_rtt s)
unfolding held view
push_rtt-Pushes s = record {
  one = λ c. omega (arith, length-snoc c.rtt s);
  viewed = λ c. refl;
  lived = λ c. refl;
}

push_throughput-Pushes : (s : ThroughputSample) → Pushes (push_throughput s)
unfolding held view
push_throughput-Pushes s = record {
  one = λ c. omega (arith, length-snoc c.throughput s);
  viewed = λ c. refl;
  lived = λ c. refl;
}

module _ (cfg : EngineConfig) where
  pub record_sample-Stored : (s : MetricSample) (f : Focus) → Stored cfg f (record_sample cfg s f)
  unfolding record_sample
  record_sample-Stored s f =
      Stored-if cfg (should_collect cfg f.conn.id) f _ f
        (store_admitted-Stored cfg (push_sample s) (push_sample-Pushes s) f) (Stored-refl cfg f)

  pub record_state-Stored : (s : StateSample) (f : Focus) → Stored cfg f (record_state cfg s f)
  unfolding record_state
  record_state-Stored s f = store-Stored cfg (push_state s) (push_state-Pushes s) f

  pub record_seq_points-Stored :
      (ps : List SeqSample) (f : Focus) → Stored cfg f (record_seq_points cfg ps f)
  unfolding record_seq_points record_seq
  record_seq_points-Stored [] f = Stored-refl cfg f
  record_seq_points-Stored (p ∷ ps) f =
      Stored-trans cfg f (store cfg (push_seq p) f) _
        (store-Stored cfg (push_seq p) (push_seq-Pushes p) f)
        (record_seq_points-Stored ps (store cfg (push_seq p) f))

  inflight_turn-Stored :
      (t : Nanos) (d : Direction) (o : Option ℕ) (f : Focus)
      → Stored cfg f (inflight_sample cfg t d o f)
  unfolding inflight_sample record_inflight
  inflight_turn-Stored t d none f = Stored-refl cfg f
  inflight_turn-Stored t d (some n) f = store-Stored cfg _ (push_inflight-Pushes _) f

  pub collect_inflight_at-Stored :
      (t : Nanos) (f : Focus) → Stored cfg f (collect_inflight_at cfg t f)
  unfolding collect_inflight_at inflight_turn
  collect_inflight_at-Stored t f =
      let g = inflight_sample cfg t o2r (in_flight f.conn.metrics o2r) f in
      Stored-if cfg (f.overflowed || not cfg.collect_inflight_timeline) f f _ (Stored-refl cfg f)
        (Stored-trans cfg f g _ (inflight_turn-Stored t o2r _ f) (inflight_turn-Stored t r2o _ g))

  throughput_turn-Stored :
      (t : Nanos) (d : Direction) (o : Option (ℕ × ℕ)) (f : Focus)
      → Stored cfg f (throughput_sample cfg t d o f)
  unfolding throughput_sample record_throughput
  throughput_turn-Stored t d none f = Stored-refl cfg f
  throughput_turn-Stored t d (some (total, good)) f =
      store-Stored cfg _ (push_throughput-Pushes _) f

  pub collect_throughput_at-Stored :
      (t : Nanos) (f : Focus) → Stored cfg f (collect_throughput_at cfg t f)
  unfolding collect_throughput_at throughput_turn
  collect_throughput_at-Stored t f =
      let g = throughput_sample cfg t o2r (throughput_at f.conn.metrics o2r t cfg) f in
      Stored-if cfg (f.overflowed || not cfg.collect_throughput_timeline) f f _ (Stored-refl cfg f)
        (Stored-trans cfg f g _ (throughput_turn-Stored t o2r _ f)
          (throughput_turn-Stored t r2o _ g))

  put_srtt-quiet :
      (m : SampleDir) (v : ℕ) (c : ConnTrack)
      → (held (put_srtt m v c) ≡ held c)
        × (view (put_srtt m v c) ≡ view c)
        × (life (put_srtt m v c) ≡ life c)
  unfolding put_srtt held view
  put_srtt-quiet origin_to_responder v c = (refl, refl, refl)
  put_srtt-quiet responder_to_origin v c = (refl, refl, refl)

  rtt_sample-Stored :
      (sample : MetricSample) (o : Option ℕ) (f : Focus) → Stored cfg f (rtt_sample cfg sample o f)
  unfolding rtt_sample record_rtt
  rtt_sample-Stored sample none f = Stored-refl cfg f
  rtt_sample-Stored sample (some r) f =
      let m = sdir_opposite sample.dir in
      let v = smooth (srtt_of m f.conn) r in
      let quiet = put_srtt-quiet m v f.conn in
      Stored-trans cfg f (record f { conn = put_srtt m v f.conn }) _
        (Stored-quiet cfg f (put_srtt m v f.conn) quiet.0 quiet.1 quiet.2)
        (store-Stored cfg _ (push_rtt-Pushes _) _)

  pub collect_rtt_points-Stored :
      (sample : MetricSample) (f : Focus) → Stored cfg f (collect_rtt_points cfg sample f)
  unfolding collect_rtt_points
  collect_rtt_points-Stored sample f =
      Stored-if cfg (f.overflowed || not cfg.collect_rtt_timeline) f f _ (Stored-refl cfg f)
        (rtt_sample-Stored sample sample.rtt f)
