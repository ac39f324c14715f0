-- ===== src/Tui.antt =====
-- crates/tcpvisr-tui: the transport of the time line, and the charts with the grid that they draw on.
pub mod Transport
pub mod Grid
pub mod Plot
pub mod Throughput
pub mod Inflight
pub mod Rtt
pub mod Detail
mod Tests
pub mod Service
pub mod App
pub mod Keys
