-- ===== src/Consensus/Agreement/Distinct.antt =====
-- The set of REPAIR-COMMITs that a replica holds, as a list without repetition
-- (`on_receive_repair_commit` of raspen/crates/consensus/src/repair.rs).
use raspen.Prelude.{◌≡◌, ◌≢◌, refl, false, List, [], ◌∷◌, ◌++◌, done, arith}
use raspen.Prelude.HashSet
use raspen.Prelude.HashSet.{contains-append_ne}
use raspen.Types.{Message, Message-discrete, Effect, Event, KvStoreOps}
use raspen.Consensus.Replica.{Replica}
use raspen.Consensus.FastPath.{on_speculate}
use raspen.Consensus.Checkpoint.{on_sync_threshold, on_receive_sync, on_sync_timeout}
use raspen.Consensus.Alignment.{on_receive_checkpoint, on_state_request, on_state_reply}
use raspen.Consensus.RepairEntry.{on_conflict, on_receive_timeout, on_proof, on_chkpt_timeout}
use raspen.Consensus.Repair.{
  on_receive_log_msg, on_receive_repair_history, on_receive_repair_prepare,
  on_receive_repair_commit, on_receive_repair_done, on_repair_view_timeout,
}
use raspen.Consensus.Node.{ReplicaInput, run_node}
use raspen.Consensus.Blocks.{
  Follows, IsTransitive, MessageBlocks, EventBlocks, Follows-process_message, Follows-handle_event,
}
use raspen.Consensus.Runs.{run_node-related}
use raspen.Consensus.Agreement.Voters.{IsDistinct}

append_new-IsDistinct :
    (m : Message) (ms : List Message)
    → HashSet.contains Message-discrete m ms ≡ false
    → IsDistinct ms
    → IsDistinct (ms ++ m ∷ [])
unfolding HashSet.contains
append_new-IsDistinct m [] new d = (refl, tt)
append_new-IsDistinct m (x ∷ ms) new d =
    let other : x ≢ m = λ e. ground arith in
    let rest : HashSet.contains Message-discrete m ms ≡ false = ground arith in
    (contains-append_ne Message-discrete x m ms other d.0, append_new-IsDistinct m ms rest d.1)

pub insert-IsDistinct :
    (m : Message) (ms : List Message)
    → IsDistinct ms
    → IsDistinct (HashSet.insert Message-discrete m ms)
unfolding HashSet.insert
insert-IsDistinct m ms d = ground (arith, append_new-IsDistinct m ms)

module _ {S : Type 0} where
  abbrev Keeps : Replica S → Replica S → List Effect → Type 0
  Keeps r r' effects =
      IsDistinct r.state.repair_commit_msgs → IsDistinct r'.state.repair_commit_msgs

  Keeps-transitive : IsTransitive Keeps
  Keeps-transitive = record { stay = λ r h. h; chain = λ a b c es fs f g h. g (f h) }

  module _ ⦃ops : KvStoreOps S⦄ where
    message-Keeps : (msg : Message) → MessageBlocks (Follows Keeps) msg
    unfolding on_speculate on_sync_threshold on_receive_sync on_receive_checkpoint on_conflict
        on_receive_timeout on_proof on_state_request on_state_reply on_receive_log_msg
        on_receive_repair_history on_receive_repair_prepare on_receive_repair_commit
        on_receive_repair_done
    message-Keeps msg = record {
      speculate = λ r r' effects e. ground arith;
      sync_threshold = λ r r' effects e. ground arith;
      receive_sync = λ r r' effects e. ground arith;
      receive_checkpoint = λ r r' effects e. ground arith;
      conflict = λ r r' effects e. ground arith;
      receive_timeout = λ r r' effects e. ground arith;
      proof = λ r r' effects e. ground arith;
      state_request = λ r r' effects e. ground arith;
      state_reply = λ r r' effects e. ground arith;
      receive_log = λ r r' effects e. ground arith;
      receive_history = λ r r' effects e. ground arith;
      receive_prepare = λ r r' effects e. ground arith;
      receive_commit =
          λ r r' effects e. ground (arith, insert-IsDistinct msg r.state.repair_commit_msgs);
      receive_done = λ r r' effects e. ground arith;
    }

    event-Keeps : (event : Event) → EventBlocks (Follows Keeps) event
    unfolding on_sync_timeout on_chkpt_timeout on_repair_view_timeout
    event-Keeps event = record {
      sync_timeout = λ r r' effects e. ground arith;
      chkpt_timeout = λ r r' effects e. ground arith;
      view_timeout = λ r r' effects e. ground arith;
    }

    -- A run that returns keeps the REPAIR-COMMITs distinct.
    pub run_node-IsDistinct :
        (inputs : List ReplicaInput) (r r' : Replica S)
        → (run_node inputs r).1 ≡ done r'
        → IsDistinct r.state.repair_commit_msgs
        → IsDistinct r'.state.repair_commit_msgs
    run_node-IsDistinct =
        run_node-related Keeps Keeps-transitive
          (λ msg. Follows-process_message Keeps msg Keeps-transitive (message-Keeps msg))
          (λ ev. Follows-handle_event Keeps ev Keeps-transitive (event-Keeps ev))
