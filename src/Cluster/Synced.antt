-- ===== src/Cluster/Synced.antt =====
-- The SYNCs that the replicas of a cluster hold (`on_receive_sync` of
-- raspen/crates/consensus/src/checkpoint.rs) are a set of what was sent to them.
use raspen.Prelude.{◌≡◌, List, done, All, arith}
use raspen.Types.{Message, Effect, Event, KvStoreOps}
use raspen.Consensus.Replica.{Replica}
use raspen.Consensus.FastPath.{on_speculate}
use raspen.Consensus.Checkpoint.{on_sync_threshold, on_receive_sync, on_sync_timeout}
use raspen.Consensus.Alignment.{on_receive_checkpoint, on_state_request, on_state_reply}
use raspen.Consensus.RepairEntry.{on_conflict, on_receive_timeout, on_proof, on_chkpt_timeout}
use raspen.Consensus.Repair.{
  on_receive_log_msg, on_receive_repair_history, on_receive_repair_prepare,
  on_receive_repair_commit, on_receive_repair_done, on_repair_view_timeout,
}
use raspen.Consensus.Node.{ReplicaInput, message, event, handle_input, run_node}
use raspen.Consensus.Blocks.{
  Follows, IsTransitive, MessageBlocks, EventBlocks, Follows-process_message, Follows-handle_event,
}
use raspen.Consensus.Runs.{run_node-related_where}
use raspen.Spec.Steps.{In}
use raspen.Cluster.Held.{IsHeld}
use raspen.Cluster.Held.{insert-IsHeld}
use raspen.Cluster.Projection.{WasSent}

module _ {S : Type 0} where
  abbrev SyncsSent : List Message → Replica S → Replica S → List Effect → Type 0
  SyncsSent messages r r' effects =
      IsHeld messages r.state.sync_msgs → IsHeld messages r'.state.sync_msgs

  SyncsSent-transitive : (messages : List Message) → IsTransitive (SyncsSent messages)
  SyncsSent-transitive messages = record { stay = λ r h. h; chain = λ a b c es fs f g h. g (f h) }

  module _ ⦃ops : KvStoreOps S⦄ (messages : List Message) where
    message-SyncsSent :
        (msg : Message) → In messages msg → MessageBlocks (Follows (SyncsSent messages)) msg
    unfolding on_speculate on_sync_threshold on_receive_sync on_receive_checkpoint on_conflict
        on_receive_timeout on_proof on_state_request on_state_reply on_receive_log_msg
        on_receive_repair_history on_receive_repair_prepare on_receive_repair_commit
        on_receive_repair_done
    message-SyncsSent msg sent = record {
      speculate = λ r r' effects e. ground arith;
      sync_threshold = λ r r' effects e. ground arith;
      receive_sync = λ r r' effects e.
          λ h. ground (arith, insert-IsHeld messages r.state.sync_msgs msg h sent, h);
      receive_checkpoint = λ r r' effects e. ground arith;
      conflict = λ r r' effects e. ground arith;
      receive_timeout = λ r r' effects e. ground arith;
      proof = λ r r' effects e. ground arith;
      state_request = λ r r' effects e. ground arith;
      state_reply = λ r r' effects e. ground arith;
      receive_log = λ r r' effects e. ground arith;
      receive_history = λ r r' effects e. ground arith;
      receive_prepare = λ r r' effects e. ground arith;
      receive_commit = λ r r' effects e. ground arith;
      receive_done = λ r r' effects e. ground arith;
    }

    event-SyncsSent : (ev : Event) → EventBlocks (Follows (SyncsSent messages)) ev
    unfolding on_sync_timeout on_chkpt_timeout on_repair_view_timeout
    event-SyncsSent ev = record {
      sync_timeout = λ r r' effects e. ground arith;
      chkpt_timeout = λ r r' effects e. ground arith;
      view_timeout = λ r r' effects e. ground arith;
    }

    by_input :
        (input : ReplicaInput)
        → WasSent messages input
        → Follows (SyncsSent messages) (λ r. handle_input r input)
    unfolding handle_input
    by_input (message msg) sent =
        Follows-process_message (SyncsSent messages) msg (SyncsSent-transitive messages)
          (message-SyncsSent msg sent)
    by_input (event ev) sent =
        Follows-handle_event (SyncsSent messages) ev (SyncsSent-transitive messages)
          (event-SyncsSent ev)

    pub run_node-SyncsSent :
        (inputs : List ReplicaInput) (r r' : Replica S)
        → All (WasSent messages) inputs
        → (run_node inputs r).1 ≡ done r'
        → IsHeld messages r.state.sync_msgs
        → IsHeld messages r'.state.sync_msgs
    run_node-SyncsSent inputs r r' sent is =
        run_node-related_where (SyncsSent messages) (SyncsSent-transitive messages)
          (WasSent messages) by_input inputs r r' sent is
