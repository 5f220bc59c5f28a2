-- ===== src/Spec.antt =====
-- The formal specification specs/aspen.qnt, and an invariant of it.
pub mod States
pub mod Senders
pub mod Listeners
pub mod Handlers
pub mod Steps
pub mod System
pub mod PhaseConsistency
