-- ===== src/Protocol.antt =====
-- protocol/v2: the identity of a server and the manifest of a release.
pub mod Identity
pub mod Release
