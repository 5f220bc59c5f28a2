-- ===== src/Consensus/Repair.antt =====
-- raspen/crates/consensus/src/repair.rs: the two rounds of voting of REPAIR, and the view change.
pub mod Matching
pub mod Prepare
pub mod Merge
unfoldable pub use Matching.*
unfoldable pub use Prepare.*
unfoldable pub use Merge.*
