-- ===== src/Core/Metric.antt =====
-- crates/tcpvisr-core/src/metric.rs: the sample that each processed segment yields.
use tcp_visr.Base.{ℕ, Bool, Option}
use tcp_visr.Core.Time.{Nanos}

pub data SampleDir : Type 0 where
  origin_to_responder responder_to_origin : SampleDir

pub record MetricSample : Type 0 where
  pub t : Nanos
  pub dir : SampleDir
  pub in_flight_bytes : ℕ
  pub throughput_bps : ℕ
  pub rtt : Option Nanos
  pub retransmit : Bool
  pub out_of_order : Bool
  pub sack : Bool
