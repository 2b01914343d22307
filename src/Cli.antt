-- ===== src/Cli.antt =====
-- The command line, crates/shmark-cli/src.
pub mod Client
pub mod Daemon
