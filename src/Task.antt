-- ===== src/Task.antt =====
-- internal/task/task.go: tasks, their results, and the weighted choice of the next task.
pub mod Selector
