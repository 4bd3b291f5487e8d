-- ===== src/Registry.antt =====
-- The package registry: dispatch by task kind, skills and the built-in hooks.
pub mod Dispatcher
pub mod Skills
pub mod BuiltinHooks
