-- ===== src/Cli.antt =====
-- cmd/sendit/main.go: what the commands compute.
pub mod Latency
pub mod Probe
pub mod Start
pub mod Daemon
