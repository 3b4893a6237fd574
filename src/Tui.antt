-- ===== src/Tui.antt =====
-- internal/tui: the counters that the terminal view shows.
pub mod State
pub mod Model
pub mod View
