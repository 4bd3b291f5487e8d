-- ===== src/Executor.antt =====
-- The package executor.
pub mod Oom
pub mod Conversion
pub mod Session
pub mod Worker
pub mod Concurrent
