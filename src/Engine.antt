-- ===== src/Engine.antt =====
-- internal/engine: the dispatch loop and what it waits for.
pub mod Pool
pub mod Scheduler
pub mod Dispatch
pub mod Run
pub mod Reload
pub mod Build
