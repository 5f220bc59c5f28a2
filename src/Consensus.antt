-- ===== src/Consensus.antt =====
-- The crate raspen-consensus: the replica, its handlers, and what is proved of them.
pub mod Replica
pub mod FastPath
pub mod Checkpoint
pub mod Alignment
pub mod RepairEntry
pub mod Repair
pub mod Dispatch
pub mod Blocks
pub mod Keeps
pub mod Halves
pub mod PhaseInvariant
pub mod Node
pub mod Transport
pub mod Actor
pub mod Frame
pub mod Rounds
pub mod CommitOnce
pub mod Log
pub mod NoPanic
pub mod Speculation
pub mod Grows
pub mod Backing
pub mod Leader
pub mod Equivocation
pub mod Recovery
pub mod Agreement
pub mod Proposal
pub mod Progress
pub mod Sequenced
pub mod Runs
pub mod Machine
pub mod Delivery
pub mod NodeRuns
