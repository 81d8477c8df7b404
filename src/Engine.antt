-- ===== src/Engine.antt =====
-- internal/engine/engine.go: the DuckDB runtime that sources are attached to.
pub mod Sql
pub mod Runtime
pub mod Boot
pub mod Odbc
pub mod Diagnostics
