-- ===== src/Cli.antt =====
-- cmd/cli/cmd: the command line client.
pub mod Client
pub mod Logs
pub mod Status
pub mod Commands
pub mod Dlq
