-- ===== src/Engine/Fixtures.antt =====
-- Concrete segments for the tests, as crates/tcpvisr-engine/src/tracker.rs builds them.
use tcp_visr.Base.{ℕ, List, [], ◌∷◌, false, none, true}
use tcp_visr.Core.Flow.{Endpoint, v4}
use tcp_visr.Core.Segment.{Segment, Item, segment}
use tcp_visr.Engine.Config.{EngineConfig, default_config, fail_fast, all_collected}

abbrev pub client : Endpoint
client = record { ip = v4 0x0a000001; port = 1234 }

abbrev pub server : Endpoint
server = record { ip = v4 0x0a000002; port = 80 }

abbrev pub seg_of : Endpoint → Endpoint → ℕ → ℕ → ℕ → ℕ → ℕ → Segment
seg_of src dst flags seq ack len ts = record {
  ts = ts;
  flow = record { src_ip = src.ip; src_port = src.port; dst_ip = dst.ip; dst_port = dst.port };
  seq = seq;
  ack = ack;
  flags = flags;
  window = 0;
  options = record {
    mss = none;
    window_scale = none;
    sack_permitted = false;
    timestamp = none;
    sack_blocks = [];
  };
  payload_len = len;
}

-- A handshake, data, its ack and both FINs.
abbrev pub session : List Item
session =
    segment (seg_of client server 0x02 99 0 0 0)
    ∷ segment (seg_of server client 0x12 499 100 0 10)
    ∷ segment (seg_of client server 0x10 100 500 0 20)
    ∷ segment (seg_of client server 0x18 100 500 40 30)
    ∷ segment (seg_of server client 0x10 500 140 0 50)
    ∷ segment (seg_of client server 0x11 140 500 0 60)
    ∷ segment (seg_of server client 0x11 500 141 0 70)
    ∷ []

abbrev pub full_config : EngineConfig
full_config = record default_config {
  series_collection = all_collected;
  retention = fail_fast 100;
  collect_state_timeline = true;
  collect_seq_timeline = true;
  collect_inflight_timeline = true;
  collect_rtt_timeline = true;
  collect_throughput_timeline = true;
}
