-- ===== src/Validation.antt =====
-- The validation of configurations (validation/).
pub mod Configs
