-- ===== src/Consensus/PhaseInvariant.antt =====
-- The flag `in_repair` and the phase of a replica, through every handler.
use raspen.Prelude.{◌≡◌, List, done, arith}
use raspen.Types.{Effect, Message, Event, KvStoreOps}
use raspen.Consensus.Replica.{Replica}
use raspen.Consensus.FastPath.{on_speculate}
use raspen.Consensus.Checkpoint.{on_sync_threshold, on_receive_sync, on_sync_timeout}
use raspen.Consensus.Alignment.{on_receive_checkpoint, on_state_request, on_state_reply}
use raspen.Consensus.RepairEntry.{on_conflict, on_receive_timeout, on_proof, on_chkpt_timeout}
use raspen.Consensus.Repair.{
  is_repair_phase, on_receive_log_msg, on_receive_repair_history, on_receive_repair_prepare,
  on_receive_repair_commit, on_receive_repair_done, on_repair_view_timeout,
}
use raspen.Consensus.Dispatch.{process_message, handle_event}
use raspen.Consensus.Blocks.{
  Follows, IsTransitive, MessageBlocks, EventBlocks, Follows-process_message, Follows-handle_event,
}

module _ {S : Type 0} where
  -- `in_repair` is set exactly in the three phases of REPAIR.
  abbrev pub InRepairAgrees : Replica S → Type 0
  InRepairAgrees r = r.state.in_repair ≡ is_repair_phase r.state.phase

  abbrev Keeps : Replica S → Replica S → List Effect → Type 0
  Keeps r r' effects = InRepairAgrees r → InRepairAgrees r'

  module _ ⦃ops : KvStoreOps S⦄ where
    message-Keeps : (msg : Message) → MessageBlocks (Follows Keeps) msg
    unfolding on_speculate on_sync_threshold on_receive_sync on_receive_checkpoint on_conflict
        on_receive_timeout on_proof on_state_request on_state_reply on_receive_log_msg
        on_receive_repair_history on_receive_repair_prepare on_receive_repair_commit
        on_receive_repair_done
    message-Keeps msg = record {
      speculate = λ r r' effects e. ground arith;
      sync_threshold = λ r r' effects e. ground arith;
      receive_sync = λ r r' effects e. ground arith;
      receive_checkpoint = λ r r' effects e. ground arith;
      conflict = λ r r' effects e. ground arith;
      receive_timeout = λ r r' effects e. ground arith;
      proof = λ r r' effects e. ground arith;
      state_request = λ r r' effects e. ground arith;
      state_reply = λ r r' effects e. ground arith;
      receive_log = λ r r' effects e. ground arith;
      receive_history = λ r r' effects e. ground arith;
      receive_prepare = λ r r' effects e. ground arith;
      receive_commit = λ r r' effects e. ground arith;
      receive_done = λ r r' effects e. ground arith;
    }

    event-Keeps : (event : Event) → EventBlocks (Follows Keeps) event
    unfolding on_sync_timeout on_chkpt_timeout on_repair_view_timeout
    event-Keeps event = record {
      sync_timeout = λ r r' effects e. ground arith;
      chkpt_timeout = λ r r' effects e. ground arith;
      view_timeout = λ r r' effects e. ground arith;
    }

    Keeps-transitive : IsTransitive Keeps
    Keeps-transitive = record { stay = λ r h. h; chain = λ a b c es fs f g h. g (f h) }

    -- A message that is processed keeps `in_repair` in step with the phase.
    pub process_message-InRepairAgrees :
        (msg : Message) (r r' : Replica S) (effects : List Effect)
        → process_message r msg ≡ done (r', effects)
        → InRepairAgrees r
        → InRepairAgrees r'
    process_message-InRepairAgrees msg r r' effects e =
        Follows-process_message Keeps msg Keeps-transitive (message-Keeps msg) r r' effects e

    -- A timer event keeps `in_repair` in step with the phase.
    pub handle_event-InRepairAgrees :
        (event : Event) (r r' : Replica S) (effects : List Effect)
        → handle_event r event ≡ done (r', effects)
        → InRepairAgrees r
        → InRepairAgrees r'
    handle_event-InRepairAgrees event r r' effects e =
        Follows-handle_event Keeps event Keeps-transitive (event-Keeps event) r r' effects e
