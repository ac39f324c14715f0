-- ===== src/Cli.antt =====
-- crates/tcp-visr: of the command line, the configurations of the commands and the live session.
pub mod Config
pub mod Live
