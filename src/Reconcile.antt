-- ===== src/Reconcile.antt =====
-- internal/reconcile: turning a configuration into attached sources, all or nothing.
pub mod Stage
pub mod Manager
pub mod Factories
pub mod Apply
pub mod Rollback
pub mod Success
pub mod Bootstrap
