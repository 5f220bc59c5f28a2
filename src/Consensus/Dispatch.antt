-- ===== src/Consensus/Dispatch.antt =====
-- raspen/crates/consensus/src/replica.rs: the dispatch of messages and of timer events.
use raspen.Prelude.{List, [], ◌∷◌, ◌++◌, done, and_then}
use raspen.Types.{Message, Event, KvStoreOps}
use raspen.Consensus.Replica.{Replica, Handled}
use raspen.Consensus.FastPath.{on_speculate}
use raspen.Consensus.Checkpoint.{on_sync_threshold, on_receive_sync, on_sync_timeout}
use raspen.Consensus.Alignment.{on_receive_checkpoint, on_state_request, on_state_reply}
use raspen.Consensus.RepairEntry.{on_conflict, on_receive_timeout, on_proof, on_chkpt_timeout}
use raspen.Consensus.Repair.{
  on_receive_log_msg, on_receive_repair_history, on_receive_repair_prepare,
  on_receive_repair_commit, on_receive_repair_done, on_repair_view_timeout,
}

module _ {S : Type 0} where
  -- Blocks in order; each one's effects are appended with `effects.extend`.
  unfoldable pub run_blocks : List (Replica S → Handled S) → Replica S → Handled S
  run_blocks [] r = done (r, [])
  run_blocks (block ∷ blocks) r =
      and_then (block r) λ (r', effects).
        and_then (run_blocks blocks r') λ (r'', later). done (r'', effects ++ later)

  module _ ⦃ops : KvStoreOps S⦄ where
    -- The blocks up to the vote of REPAIR-PREPARE, which leave the round alone.
    abbrev pub front_blocks : Message → List (Replica S → Handled S)
    front_blocks msg =
        (λ r. on_speculate r msg)
        ∷ on_sync_threshold
        ∷ (λ r. on_receive_sync r msg)
        ∷ (λ r. on_receive_checkpoint r msg)
        ∷ on_conflict
        ∷ (λ r. on_receive_timeout r msg)
        ∷ (λ r. on_proof r msg)
        ∷ (λ r. on_state_request r msg)
        ∷ (λ r. on_state_reply r msg)
        ∷ (λ r. on_receive_log_msg r msg)
        ∷ (λ r. on_receive_repair_history r msg)
        ∷ (λ r. on_receive_repair_prepare r msg)
        ∷ []

    -- The blocks that may end a REPAIR.
    abbrev pub back_blocks : Message → List (Replica S → Handled S)
    back_blocks msg =
        (λ r. on_receive_repair_commit r msg) ∷ (λ r. on_receive_repair_done r msg) ∷ []

    abbrev pub message_blocks : Message → List (Replica S → Handled S)
    message_blocks msg = front_blocks msg ++ back_blocks msg

    unfoldable pub process_message : Replica S → Message → Handled S
    process_message r msg = run_blocks (message_blocks msg) r

    abbrev pub event_blocks : Event → List (Replica S → Handled S)
    event_blocks event =
        (λ r. on_sync_timeout r event)
        ∷ (λ r. on_chkpt_timeout r event)
        ∷ (λ r. on_repair_view_timeout r event)
        ∷ []

    unfoldable pub handle_event : Replica S → Event → Handled S
    handle_event r event = run_blocks (event_blocks event) r
