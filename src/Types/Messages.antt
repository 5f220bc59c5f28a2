-- ===== src/Types/Messages.antt =====
-- raspen/crates/types/src/message.rs, effect.rs and event.rs. The fields of a message stand in the
-- order of the source.
use native.Mathlib.Decide.{ℕ_discrete}
use raspen.Prelude.{ℕ, List, replicate}

-- A SHA-256 digest, as its 32 bytes.
abbrev pub Hash : Type 0
Hash = List ℕ

-- `[0u8; 32]`
abbrev pub zero_hash : Hash
zero_hash = replicate 32 0

-- The bytes of a node's name.
abbrev pub NodeId : Type 0
NodeId = List ℕ

abbrev pub Eta : Type 0
Eta = ℕ

pub data Message : Type 0 where
  speculate : NodeId → (round : ℕ) → (op_hash : Hash) → Eta → Message
  spec_reply : NodeId → (round log_idx : ℕ) → (log_hash : Hash) → Message
  sync : NodeId → (round log_idx : ℕ) → (log_hash : Hash) → (eta_star : ℕ) → Message
  checkpoint : NodeId → (round log_idx : ℕ) → (log_hash : Hash) → Message
  state_request : NodeId → (chkpt_idx : ℕ) → Message
  state_reply : NodeId → (chkpt_idx : ℕ) → (chkpt_hash : Hash) → Message
  timeout_msg : NodeId → (round log_idx : ℕ) → Message
  timeout_proof : (round log_idx : ℕ) → Message
  conflict_proof : (round log_idx : ℕ) → Message
  log_msg : NodeId → (view round : ℕ) → (log_hash : Hash) → Message
  repair_history : NodeId → (view round history_hash : ℕ) → Message
  repair_prepare : NodeId → (view round history_hash : ℕ) → Message
  repair_commit : NodeId → (view round history_hash : ℕ) → Message
  repair_done : NodeId → (view round history_hash : ℕ) → Message
  committed_reply : NodeId → (round log_idx : ℕ) → Message

-- `#[derive(PartialEq, Eq, Hash)]`: two messages are one element of a `HashSet` if all fields agree.
unfoldable pub Message-discrete : Discrete Message
Message-discrete = hlevel ℕ_discrete

pub data Effect : Type 0 where
  broadcast : Message → Effect
  send : NodeId → Message → Effect

pub data Event : Type 0 where
  sync_timeout : Event
  chkpt_timeout : (log_idx : ℕ) → Event
  repair_view_timeout : Event
