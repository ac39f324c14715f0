-- ===== src/Engine.antt =====
-- crates/tcpvisr-engine: the pure connection tracker, metric derivation and timeline.
pub mod State
pub mod Conn
pub mod Config
pub mod Metrics
pub mod Timeline
pub mod Track
pub mod Record
pub mod Tracker
pub mod Fixtures
