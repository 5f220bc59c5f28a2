-- ===== src/Storage.antt =====
-- The crate raspen-storage: the in-memory store of the log, and the contract that a store keeps.
pub mod Contract
pub mod BTreeMap
pub mod Keys
pub mod MemKvStore
pub mod Refinement
pub mod Size
pub mod Database
pub mod RocksKvStore
pub mod Backends
pub mod Metadata
