-- ===== src/Engine/Record/Derive.antt =====
-- The derivation of a segment is a `Stored` step.
use tcp_visr.Base.{
  ◌≡◌, refl, ◌∙◌, ◌&&◌, ◌||◌, not, List, [], ◌∷◌, if◌then◌else◌, ltb, Bool-cases, inl, inr,
}
use tcp_visr.Core.Time.{Nanos}
use tcp_visr.Core.Seq.{TcpSeq}
use tcp_visr.Core.Segment.{Segment}
use tcp_visr.Core.Metric.{MetricSample}
use tcp_visr.Engine.Conn.{Direction, o2r, r2o}
use tcp_visr.Engine.Config.{EngineConfig}
use tcp_visr.Engine.Metrics.{MetricState, observe, opposite}
use tcp_visr.Engine.Track.{
  ConnTrack, held, view, life, push_seq_points, push_data_point, push_sack_points, unwrap_in,
}
use tcp_visr.Engine.Record.{
  Focus, record_sample, collect_seq_points, collect_inflight_at, collect_rtt_points, should_collect,
  collect_all, derive_sample, wants_sample,
}
use tcp_visr.Engine.Record.Stored.{Stored, Stored-refl, Stored-trans, Stored-if, Stored-quiet}
use tcp_visr.Engine.Record.Collect.{
  record_sample-Stored, record_seq_points-Stored, collect_inflight_at-Stored,
  collect_rtt_points-Stored, collect_throughput_at-Stored,
}

-- Neither samples nor what is reported changes.
abbrev Quiet : ConnTrack → ConnTrack → Type 0
Quiet c d = (held d ≡ held c) × (view d ≡ view c) × (life d ≡ life c)

unwrap_in-Quiet : (dir : Direction) (s : TcpSeq) (c : ConnTrack) → Quiet c (unwrap_in dir s c).0
unfolding unwrap_in held view
unwrap_in-Quiet o2r s c = (refl, refl, refl)
unwrap_in-Quiet r2o s c = (refl, refl, refl)

Quiet-trans : (c d e : ConnTrack) → Quiet c d → Quiet d e → Quiet c e
Quiet-trans c d e p q = (q.0 ∙ p.0, q.1 ∙ p.1, q.2 ∙ p.2)

push_data_point-Quiet :
    (seg : Segment) (dir : Direction) (sample : MetricSample) (c : ConnTrack)
    → Quiet c (push_data_point seg dir sample c).0
unfolding push_data_point
push_data_point-Quiet seg dir sample c = elim (Bool-cases (ltb 0 seg.payload_len)) [
  | inl bytes ↦ rw bytes (unwrap_in-Quiet dir seg.seq c)
  | inr empty ↦ rw empty (refl, refl, refl)
]

push_sack_points-Quiet :
    (ts : Nanos) (acked : Direction) (blocks : List (TcpSeq × TcpSeq)) (c : ConnTrack)
    → Quiet c (push_sack_points ts acked blocks c).0
unfolding push_sack_points
push_sack_points-Quiet ts acked [] c = (refl, refl, refl)
push_sack_points-Quiet ts acked ((left, right) ∷ blocks) c =
    let d = (unwrap_in acked left c).0 in
    Quiet-trans c d _ (unwrap_in-Quiet acked left c) (push_sack_points-Quiet ts acked blocks d)

push_seq_points-Quiet :
    (seg : Segment) (dir : Direction) (sample : MetricSample) (c : ConnTrack)
    → Quiet c (push_seq_points seg dir sample c).0
unfolding push_seq_points
push_seq_points-Quiet seg dir sample c =
    let d = (push_data_point seg dir sample c).0 in
    Quiet-trans c d _ (push_data_point-Quiet seg dir sample c)
      (push_sack_points-Quiet seg.ts (opposite dir) seg.options.sack_blocks d)

module _ (cfg : EngineConfig) (seg : Segment) (dir : Direction) where
  collect_seq_points-Stored :
      (sample : MetricSample) (f : Focus) → Stored cfg f (collect_seq_points cfg seg dir sample f)
  unfolding collect_seq_points
  collect_seq_points-Stored sample f =
      let r = push_seq_points seg dir sample f.conn in
      let quiet = push_seq_points-Quiet seg dir sample f.conn in
      Stored-if cfg (f.overflowed || not cfg.collect_seq_timeline) f f _ (Stored-refl cfg f) (
        Stored-trans cfg f (record f { conn = r.0 }) _
          (Stored-quiet cfg f r.0 quiet.0 quiet.1 quiet.2)
          (record_seq_points-Stored cfg r.1 (record f { conn = r.0 })))

  collect_all-Stored :
      (sample : MetricSample) (f : Focus) → Stored cfg f (collect_all cfg seg dir sample f)
  unfolding collect_all
  collect_all-Stored sample f =
      let kept = if should_collect cfg f.conn.id then record_sample cfg sample f else f in
      let seqs = collect_seq_points cfg seg dir sample kept in
      let flight = collect_inflight_at cfg seg.ts seqs in
      let trips = collect_rtt_points cfg sample flight in
      Stored-trans cfg f kept _
        (Stored-if cfg (should_collect cfg f.conn.id) f (record_sample cfg sample f) f
          (record_sample-Stored cfg sample f) (Stored-refl cfg f))
        (Stored-trans cfg kept seqs _ (collect_seq_points-Stored sample kept) (
          Stored-trans cfg seqs flight _ (collect_inflight_at-Stored cfg seg.ts seqs) (
            Stored-trans cfg flight trips _ (collect_rtt_points-Stored cfg sample flight)
              (collect_throughput_at-Stored cfg seg.ts trips))))

  metrics-Stored :
      (m : MetricState) (f : Focus)
      → Stored cfg f (record f { conn = record f.conn { metrics = m } })
  unfolding held view
  metrics-Stored m f = Stored-quiet cfg f (record f.conn { metrics = m }) refl refl refl

  pub derive_sample-Stored : (f : Focus) → Stored cfg f (derive_sample cfg seg dir f)
  unfolding derive_sample
  derive_sample-Stored f =
      let r = observe f.conn.metrics seg dir cfg in
      let g : Focus = record f { conn = record f.conn { metrics = r.0 } } in
      Stored-if cfg (not f.overflowed && wants_sample cfg f.conn.id) f _ f
        (Stored-trans cfg f g _ (metrics-Stored r.0 f) (collect_all-Stored r.1 g))
        (Stored-refl cfg f)
