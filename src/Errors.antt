-- ===== src/Errors.antt =====
-- errors.go: the error codes, the public error type, IsCode and ClassifyError (Defs), what
-- ClassifyError promises (Classify), and functions that may fail (Result).
pub mod Defs
pub mod Result
pub mod Classify
