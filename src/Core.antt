-- ===== src/Core.antt =====
-- crates/tcpvisr-core: the types that the other crates share.
pub mod Time
pub mod Seq
pub mod Flow
pub mod Segment
pub mod Metric
pub mod Name
