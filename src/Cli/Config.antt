-- ===== src/Cli/Config.antt =====
-- crates/tcp-visr/src/main.rs: the engine's configuration for each command, the checks of the
-- arguments, and the hint of the live screen. Times of the clock are nanoseconds.
use tcp_visr.Base.{ℕ, ◌*◌, Bool, true, false, ◌||◌, ltb, ◌==◌, if◌then◌else◌, saturate_u64}
use tcp_visr.Core.Time.{Nanos}
use tcp_visr.Engine.Conn.{ConnId}
use tcp_visr.Engine.Config.{EngineConfig, default_config, fail_fast, evict, all_collected, only}

unfoldable pub replay_engine_config : ℕ → EngineConfig
replay_engine_config max_samples = record default_config {
  collect_state_timeline = true;
  collect_seq_timeline = true;
  collect_inflight_timeline = true;
  collect_rtt_timeline = true;
  collect_throughput_timeline = true;
  retention = fail_fast max_samples;
}

unfoldable pub live_engine_config : ℕ → EngineConfig
live_engine_config retention_secs = record default_config {
  collect_state_timeline = true;
  collect_seq_timeline = true;
  collect_inflight_timeline = true;
  collect_rtt_timeline = true;
  collect_throughput_timeline = true;
  series_collection = all_collected;
  retention = evict (saturate_u64 (retention_secs * 1000000000)) 2000000;
}

-- The `base` of `run_metrics`, and the configuration of its second pass.
unfoldable pub metrics_config : ℕ → ℕ → ℕ → EngineConfig
metrics_config throughput_window_ms reorder_window_ms max_samples = record default_config {
  throughput_window = saturate_u64 (throughput_window_ms * 1000000);
  reorder_window = saturate_u64 (reorder_window_ms * 1000000);
  retention = fail_fast max_samples;
}

unfoldable pub target_config : EngineConfig → ConnId → EngineConfig
target_config base target = record base { series_collection = only target }

-- Whether the number of seconds is refused.
unfoldable pub refuses_retention : ℕ → Bool
refuses_retention retention_secs = retention_secs == 0

abbrev pub live_grace : Nanos
live_grace = 5000000000

-- Whether the hint "no packets yet" is shown.
unfoldable pub grace_hint : Bool → Nanos → Bool
grace_hint first_packet_seen elapsed =
    if first_packet_seen || ltb elapsed live_grace then false else true
