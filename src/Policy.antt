-- ===== src/Policy.antt =====
-- internal/policy/policy.go: which statements a client may run, and which sources they read.
pub mod Tree
pub mod Sources
pub mod TempTable
pub mod Evaluate
