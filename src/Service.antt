-- ===== src/Service.antt =====
-- service.go: the lifecycle facade (Defs, Ops), its lifecycle (Lifecycle), and what a concurrent
-- observer sees (Concurrent).
pub mod Defs
pub mod Ops
pub mod Lifecycle
pub mod Concurrent
