-- ===== src/Config.antt =====
-- internal/config: the versioned document of sources, its file store and the add/remove service.
pub mod Document
pub mod Validate
pub mod Store
pub mod Marshal
pub mod Durable
pub mod Service
pub mod Atomic
