-- ===== src/Consensus/Backing.antt =====
-- The evidence behind every proof and vote that a replica broadcasts
-- (raspen/crates/consensus/src/checkpoint.rs, repair_entry.rs and repair.rs).
pub mod Evidence
pub mod Handlers
pub mod RepairHandlers
use raspen.Prelude.{
  ◌≤◌, ◌≡◌, refl, subst, ◌∙◌, List, [], ◌∷◌, All, All-append, done, count_if, arith,
}
use raspen.Prelude.HashSet
use raspen.Types.{
  Message-discrete, Message, checkpoint, timeout_proof, conflict_proof, repair_history,
  repair_prepare, repair_commit, repair_done, Effect, broadcast, send, Event, Config, KvStoreOps,
}
use raspen.Consensus.Replica.{Replica}
use raspen.Consensus.FastPath.{on_speculate}
use raspen.Consensus.Checkpoint.{
  sync_matches, sync_quorum, on_sync_threshold, on_receive_sync, on_sync_timeout,
}
use raspen.Consensus.Alignment.{on_receive_checkpoint, on_state_request, on_state_reply}
use raspen.Consensus.RepairEntry.{
  sync_at, sync_total, timeout_matches, on_conflict, on_receive_timeout, on_proof, on_chkpt_timeout,
}
use raspen.Consensus.Repair.{
  prepare_matches, commit_matches, prepare_quorum, commit_quorum, on_receive_log_msg,
  on_receive_repair_history, on_receive_repair_prepare, on_receive_repair_commit,
  on_receive_repair_done, on_repair_view_timeout,
}
use raspen.Consensus.Dispatch.{process_message, handle_event}
use raspen.Consensus.Blocks.{
  Follows, IsTransitive, MessageBlocks, EventBlocks, Follows-process_message, Follows-handle_event,
}
use raspen.Consensus.Grows.{
  Grows-insert, count-Grows, history_is, find_map-Found, AllGrow, AllGrow-refl, AllGrow-trans,
}
use raspen.Consensus.Backing.Evidence.{Backs, Backs-transitive}
use raspen.Consensus.Backing.Handlers.{
  on_speculate-Backs, on_sync_threshold-Backs, on_receive_sync-Backs, on_receive_checkpoint-Backs,
  on_conflict-Backs, on_receive_timeout-Backs, on_proof-Backs, on_state_request-Backs,
  on_state_reply-Backs,
}
use raspen.Consensus.Backing.RepairHandlers.{
  on_receive_log_msg-Backs, on_receive_repair_history-Backs, on_receive_repair_prepare-Backs,
  on_receive_repair_commit-Backs, on_receive_repair_done-Backs,
}

module _ {S : Type 0} where
  module _ ⦃ops : KvStoreOps S⦄ where
    message-Backs : (msg : Message) → MessageBlocks {S = S} (Follows Backs) msg
    message-Backs msg = record {
      speculate = on_speculate-Backs msg;
      sync_threshold = on_sync_threshold-Backs;
      receive_sync = on_receive_sync-Backs msg;
      receive_checkpoint = on_receive_checkpoint-Backs msg;
      conflict = on_conflict-Backs;
      receive_timeout = on_receive_timeout-Backs msg;
      proof = on_proof-Backs msg;
      state_request = on_state_request-Backs msg;
      state_reply = on_state_reply-Backs msg;
      receive_log = on_receive_log_msg-Backs msg;
      receive_history = on_receive_repair_history-Backs msg;
      receive_prepare = on_receive_repair_prepare-Backs msg;
      receive_commit = on_receive_repair_commit-Backs msg;
      receive_done = on_receive_repair_done-Backs msg;
    }

    event-Backs : (event : Event) → EventBlocks {S = S} (Follows Backs) event
    unfolding on_sync_timeout on_chkpt_timeout on_repair_view_timeout
    event-Backs event = record {
      sync_timeout = λ r r' effects e. ground (arith, AllGrow-refl r);
      chkpt_timeout = λ r r' effects e. ground (arith, AllGrow-refl r);
      view_timeout = λ r r' effects e. ground (arith, AllGrow-refl r);
    }

    -- Whatever message arrives, no received message is forgotten, and the replica holds afterwards
    -- what backs each proof and vote that it broadcasts: a fast quorum of matching SYNCs behind a
    -- CHECKPOINT, a Byzantine quorum of SYNCs of the index behind a CONFLICT-PROOF, f + 1 TIMEOUTs
    -- behind a TIMEOUT-PROOF, the REPAIR-HISTORY behind a REPAIR-PREPARE, a Byzantine quorum of
    -- matching REPAIR-PREPAREs behind a REPAIR-COMMIT, one of matching REPAIR-COMMITs behind a
    -- REPAIR-DONE, and a history hash of at least a Byzantine quorum in a REPAIR-HISTORY.
    pub process_message-Backs :
        (msg : Message) (r r' : Replica S) (effects : List Effect)
        → process_message r msg ≡ done (r', effects)
        → Backs r r' effects
    process_message-Backs msg =
        Follows-process_message Backs msg Backs-transitive (message-Backs msg)

    -- Whatever timer event fires, no received message is forgotten, and the replica holds afterwards
    -- what backs each proof and vote that it broadcasts (`BackedMessage`).
    pub handle_event-Backs :
        (event : Event) (r r' : Replica S) (effects : List Effect)
        → handle_event r event ≡ done (r', effects)
        → Backs r r' effects
    handle_event-Backs event = Follows-handle_event Backs event Backs-transitive (event-Backs event)
