-- ===== src/Tests.antt =====
-- Runs of the model at concrete inputs, and the theorems at inputs that meet their hypotheses. The
-- configuration is that of the tests of raspen (n = 6, f = 1, p = 1), over the in-memory store.
pub mod Fixtures
pub mod Stores
pub mod Replicas
pub mod Agreement
pub mod ToyDatabase
pub mod Nodes
pub mod Progress
pub mod Runs
pub mod Specification
pub mod Rounds
pub mod Checkpointed
