-- ===== src/Consensus/Frame.antt =====
-- What a replica keeps while it handles messages and events, and in whose name it speaks
-- (raspen/crates/consensus/src).
use raspen.Prelude.{◌≡◌, refl, ◌∙◌, List, All, All-append, done, subst, arith}
use raspen.Types.{
  NodeId, Message, speculate, spec_reply, sync, checkpoint, state_request, state_reply, timeout_msg,
  timeout_proof, conflict_proof, log_msg, repair_history, repair_prepare, repair_commit,
  repair_done, committed_reply, Effect, broadcast, send, Event, KvStoreOps,
}
use raspen.Consensus.Replica.{Replica}
use raspen.Consensus.FastPath.{on_speculate}
use raspen.Consensus.Checkpoint.{on_sync_threshold, on_receive_sync, on_sync_timeout}
use raspen.Consensus.Alignment.{on_receive_checkpoint, on_state_request, on_state_reply}
use raspen.Consensus.RepairEntry.{on_conflict, on_receive_timeout, on_proof, on_chkpt_timeout}
use raspen.Consensus.Repair.{
  on_receive_log_msg, on_receive_repair_history, on_receive_repair_prepare,
  on_receive_repair_commit, on_receive_repair_done, on_repair_view_timeout,
}
use raspen.Consensus.Dispatch.{process_message, handle_event}
use raspen.Consensus.Blocks.{
  Follows, IsTransitive, MessageBlocks, EventBlocks, Follows-process_message, Follows-handle_event,
}

-- The message names this node as its sender, or has no sender; a SPECULATE comes from no replica.
abbrev pub SentBy : NodeId → Message → Type 0
SentBy me (speculate _ _ _ _) = ⊥
SentBy me (spec_reply from _ _ _) = from ≡ me
SentBy me (sync from _ _ _ _) = from ≡ me
SentBy me (checkpoint from _ _ _) = from ≡ me
SentBy me (state_request from _) = from ≡ me
SentBy me (state_reply from _ _) = from ≡ me
SentBy me (timeout_msg from _ _) = from ≡ me
SentBy me (timeout_proof _ _) = Unit
SentBy me (conflict_proof _ _) = Unit
SentBy me (log_msg from _ _ _) = from ≡ me
SentBy me (repair_history from _ _ _) = from ≡ me
SentBy me (repair_prepare from _ _ _) = from ≡ me
SentBy me (repair_commit from _ _ _) = from ≡ me
SentBy me (repair_done from _ _ _) = from ≡ me
SentBy me (committed_reply from _ _) = from ≡ me

abbrev pub EmittedBy : NodeId → Effect → Type 0
EmittedBy me (broadcast m) = SentBy me m
EmittedBy me (send to m) = SentBy me m

module _ {S : Type 0} where
  -- The node's name, its configuration and `eta_star` stay, and every effect is in the node's name.
  pub record Frame (r r' : Replica S) (effects : List Effect) : Type 0 where
    pub node_id : r'.state.node_id ≡ r.state.node_id
    pub config : r'.config ≡ r.config
    pub eta_star : r'.state.eta_star ≡ r.state.eta_star
    pub emitted : All (EmittedBy r.state.node_id) effects

  pub Frame-transitive : IsTransitive Frame
  Frame-transitive = record {
    stay = λ r. record { node_id = refl; config = refl; eta_star = refl; emitted = tt };
    chain = λ a b c es fs f g. record {
      node_id = g.node_id ∙ f.node_id;
      config = g.config ∙ f.config;
      eta_star = g.eta_star ∙ f.eta_star;
      emitted =
          All-append (EmittedBy a.state.node_id) es fs f.emitted
            (subst (λ me. All (EmittedBy me) fs) f.node_id g.emitted);
    };
  }

  module _ ⦃ops : KvStoreOps S⦄ where
    message-Frame : (msg : Message) → MessageBlocks (Follows Frame) msg
    unfolding on_speculate on_sync_threshold on_receive_sync on_receive_checkpoint on_conflict
        on_receive_timeout on_proof on_state_request on_state_reply on_receive_log_msg
        on_receive_repair_history on_receive_repair_prepare on_receive_repair_commit
        on_receive_repair_done
    message-Frame msg = record {
      speculate = λ r r' effects e. ground arith;
      sync_threshold = λ r r' effects e. ground arith;
      receive_sync = λ r r' effects e. ground arith;
      receive_checkpoint = λ r r' effects e. ground arith;
      conflict = λ r r' effects e. ground arith;
      receive_timeout = λ r r' effects e. ground arith;
      proof = λ r r' effects e. ground arith;
      state_request = λ r r' effects e. ground arith;
      state_reply = λ r r' effects e. ground arith;
      receive_log = λ r r' effects e. ground arith;
      receive_history = λ r r' effects e. ground arith;
      receive_prepare = λ r r' effects e. ground arith;
      receive_commit = λ r r' effects e. ground arith;
      receive_done = λ r r' effects e. ground arith;
    }

    event-Frame : (event : Event) → EventBlocks (Follows Frame) event
    unfolding on_sync_timeout on_chkpt_timeout on_repair_view_timeout
    event-Frame event = record {
      sync_timeout = λ r r' effects e. ground arith;
      chkpt_timeout = λ r r' effects e. ground arith;
      view_timeout = λ r r' effects e. ground arith;
    }

    -- Whatever message arrives, the replica keeps its name, its configuration and its `eta_star`,
    -- and every effect is a message in its own name, or one that has no sender.
    pub process_message-Frame :
        (msg : Message) (r r' : Replica S) (effects : List Effect)
        → process_message r msg ≡ done (r', effects)
        → Frame r r' effects
    process_message-Frame msg =
        Follows-process_message Frame msg Frame-transitive (message-Frame msg)

    -- Whatever timer event fires, the replica keeps its name, its configuration and its `eta_star`,
    -- and every effect is a message in its own name, or one that has no sender.
    pub handle_event-Frame :
        (event : Event) (r r' : Replica S) (effects : List Effect)
        → handle_event r event ≡ done (r', effects)
        → Frame r r' effects
    handle_event-Frame event = Follows-handle_event Frame event Frame-transitive (event-Frame event)
