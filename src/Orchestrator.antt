-- ===== src/Orchestrator.antt =====
-- The package orchestrator.
pub mod Lifecycle
pub mod Runner
pub mod Creation
pub mod Hooks
