-- ===== src/Evaluation.antt =====
-- The package evaluation.
pub mod Validator
pub mod Floats
pub mod Comparator
