-- ===== src/Storage/Backends.antt =====
-- The two backends of raspen/crates/storage/src/kv_store.rs, side by side.
pub mod Simulation
pub mod Writes
pub mod Batches
pub mod Rebuild
pub mod Traces
