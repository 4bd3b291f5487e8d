-- ===== src/State.antt =====
-- The package state: values, records, leases and the store.
pub mod Value
pub mod Models
pub mod Leases
pub mod Memory
pub mod Reproducibility
pub mod Manifest
pub mod Sqlite
