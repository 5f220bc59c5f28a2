-- ===== src/Types/Phases.antt =====
-- raspen/crates/types/src/phase.rs
use raspen.Prelude.{Bool, true, false}

pub data Phase : Type 0 where
  speculative aligning collecting_logs prepare_phase commit_phase : Phase

-- `#[derive(PartialEq)]`
abbrev pub phase_eq : Phase → Phase → Bool
phase_eq speculative speculative = true
phase_eq aligning aligning = true
phase_eq collecting_logs collecting_logs = true
phase_eq prepare_phase prepare_phase = true
phase_eq commit_phase commit_phase = true
phase_eq _ _ = false
