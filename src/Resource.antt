-- ===== src/Resource.antt =====
-- internal/resource: the gate that holds dispatch back while the machine is busy.
pub mod Monitor
