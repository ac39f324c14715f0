-- ===== src/Ingest.antt =====
-- crates/tcpvisr-ingest: the link layer, the decoder, and the faucets that read a capture file and
-- a live interface.
pub mod Link
pub mod Crates
pub mod Dns
pub mod Skips
pub mod Decode
pub mod Replay
pub mod Live
