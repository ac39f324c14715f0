-- ===== src/Engine/Config.antt =====
-- crates/tcpvisr-engine/src/config.rs, and `SeriesCollection` of metrics.rs.
use tcp_visr.Base.{ℕ, Bool, false, Option, none, some}
use tcp_visr.Core.Time.{Nanos}
use tcp_visr.Engine.Conn.{ConnId}

pub data RetentionPolicy : Type 0 where
  fail_fast : ℕ → RetentionPolicy
  evict : Nanos → ℕ → RetentionPolicy

unfoldable pub max_samples : RetentionPolicy → ℕ
max_samples (fail_fast n) = n
max_samples (evict w n) = n

unfoldable pub window : RetentionPolicy → Option Nanos
window (fail_fast n) = none
window (evict w n) = some w

pub data SeriesCollection : Type 0 where
  none_collected all_collected : SeriesCollection
  only : ConnId → SeriesCollection

pub record EngineConfig : Type 0 where
  pub dead_after : Nanos
  pub reset_threshold : ℕ
  pub series_collection : SeriesCollection
  pub throughput_window : Nanos
  pub reorder_window : Nanos
  pub retention : RetentionPolicy
  pub collect_state_timeline : Bool
  pub collect_seq_timeline : Bool
  pub collect_inflight_timeline : Bool
  pub collect_rtt_timeline : Bool
  pub collect_throughput_timeline : Bool

-- `EngineConfig::default`
abbrev pub default_config : EngineConfig
default_config = record {
  dead_after = 120000000000;
  reset_threshold = 1073741824;
  series_collection = none_collected;
  throughput_window = 1000000000;
  reorder_window = 3000000;
  retention = fail_fast 10000000;
  collect_state_timeline = false;
  collect_seq_timeline = false;
  collect_inflight_timeline = false;
  collect_rtt_timeline = false;
  collect_throughput_timeline = false;
}
