-- ===== src/Ratelimit.antt =====
-- internal/ratelimit: how results are classified, back-off per domain, and rate limits per domain.
pub mod Classify
pub mod Backoff
pub mod Registry
