-- ===== src/Types/States.antt =====
-- raspen/crates/types/src/state.rs. `S` is the type of the store behind `Box<dyn KvStoreOps>`.
use raspen.Prelude.{ℕ, Bool, List, Option, Result}
use raspen.Types.Messages.{Hash, NodeId, Message}
use raspen.Types.Phases.{Phase}

pub record KvEntry : Type 0 where
  pub op_hash : ℕ
  pub result : List ℕ
  pub prev_hash : Hash

-- The trait `KvStoreOps`. A call through `&mut self` or a lock returns the new store.
pub record KvStoreOps (S : Type 0) : Type 0 where
  pub get : S → ℕ → Result (Option KvEntry)
  pub put : S → ℕ → KvEntry → Result S
  pub size : S → ℕ
  pub top_hash : S → Hash
  pub hash_at : S → ℕ → Result Hash
  pub rebuild_from_entries : S → List (ℕ × KvEntry) → Result S

pub record ReplicaState (S : Type 0) : Type 0 where
  pub node_id : NodeId
  pub phase : Phase
  pub round : ℕ
  pub view : ℕ
  pub start_idx : ℕ
  pub kv_size : ℕ
  pub kv_store : S
  pub chkpt_idx : ℕ
  pub chkpt_hash : Hash
  pub eta_star : ℕ
  pub in_repair : Bool
  pub proposed_history_hash : ℕ
  pub sync_msgs : List Message
  pub ack_msgs : List Message
  pub chkpt_msgs : List Message
  pub timeout_msgs : List Message
  pub log_msgs : List Message
  pub repair_history_msgs : List Message
  pub repair_prepare_msgs : List Message
  pub repair_commit_msgs : List Message
  pub repair_done_msgs : List Message
