-- ===== src/Config.antt =====
-- internal/config: what the program is configured by.
pub mod Schema
pub mod Samples
pub mod Validate
pub mod TargetsFile
pub mod Load
