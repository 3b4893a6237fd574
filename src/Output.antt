-- ===== src/Output.antt =====
-- internal/output and internal/metrics: what happens to a result behind the engine.
pub mod Writer
pub mod Metrics
