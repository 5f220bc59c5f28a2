-- ===== src/Cluster/Signed.antt =====
-- In whose name the messages of a cluster are, and how they are sent (raspen/crates/consensus/src).
use raspen.Prelude.{
  ℕ, suc, ◌≡◌, sym, subst, ap, true, inl, inr, Option, none, some, List, [], ◌∷◌, get_elem?, done,
  All, All-append, arith,
}
use raspen.Prelude.HashSet
use raspen.Types.{
  NodeId, Message, Message-discrete, speculate, spec_reply, sync, checkpoint, state_request,
  state_reply, timeout_msg, timeout_proof, conflict_proof, log_msg, repair_history, repair_prepare,
  repair_commit, repair_done, committed_reply, Effect, broadcast, send, Event, KvStoreOps,
}
use raspen.Consensus.Replica.{Replica}
use raspen.Consensus.FastPath.{on_speculate}
use raspen.Consensus.Checkpoint.{on_sync_threshold, on_receive_sync, on_sync_timeout}
use raspen.Consensus.Alignment.{on_receive_checkpoint, on_state_request, on_state_reply}
use raspen.Consensus.RepairEntry.{on_conflict, on_receive_timeout, on_proof, on_chkpt_timeout}
use raspen.Consensus.Repair.{
  on_receive_log_msg, on_receive_repair_history, on_receive_repair_prepare,
  on_receive_repair_commit, on_receive_repair_done, on_repair_view_timeout,
}
use raspen.Consensus.Node.{ReplicaInput, message, event, handle_input, run_node}
use raspen.Consensus.Blocks.{
  Follows, IsTransitive, MessageBlocks, EventBlocks, Follows-process_message, Follows-handle_event,
}
use raspen.Consensus.Runs.{run_node-related_where}
use raspen.Consensus.Frame.{SentBy, EmittedBy}
use raspen.Spec.Steps.{In}
use raspen.Cluster.Held.{All-In}
use raspen.Cluster.Projection.{Carries, WasSent}

-- In whose name a message is; a proof is in the name of nobody.
abbrev pub signer : Message → Option NodeId
signer (spec_reply from _ _ _) = some from
signer (sync from _ _ _ _) = some from
signer (checkpoint from _ _ _) = some from
signer (state_request from _) = some from
signer (state_reply from _ _) = some from
signer (timeout_msg from _ _) = some from
signer (log_msg from _ _ _) = some from
signer (repair_history from _ _ _) = some from
signer (repair_prepare from _ _ _) = some from
signer (repair_commit from _ _ _) = some from
signer (repair_done from _ _ _) = some from
signer (committed_reply from _ _) = some from
signer _ = none

-- What is sent to one node is a STATE-REPLY; all else is broadcast.
abbrev pub IsReply : Message → Type 0
IsReply (state_reply _ _ _) = Unit
IsReply _ = ⊥

abbrev pub Routed : Effect → Type 0
Routed (broadcast m) = Unit
Routed (send to m) = IsReply m

pub In-get_elem? :
    {A : Type 0} (xs : List A) (a : A) → In xs a → (i : ℕ) × (get_elem? xs i ≡ some a)
In-get_elem? [] a here = absurd here
In-get_elem? (x ∷ xs) a (inl is) = (0, ap some is)
In-get_elem? (x ∷ xs) a (inr here) = let (i, is) = In-get_elem? xs a here in (suc i, is)

pub contains-In :
    (m : Message) (ms : List Message) → HashSet.contains Message-discrete m ms ≡ true → In ms m
unfolding HashSet.contains
contains-In m [] h = cc
contains-In m (x ∷ ms) h = elim (Message-discrete m x) [
  | yes same ↦ inl (sym same)
  | no other ↦ inr (contains-In m ms (ground arith))
]

insert-All :
    (messages held : List Message) (m : Message)
    → In messages m
    → All (In messages) held
    → All (In messages) (HashSet.insert Message-discrete m held)
unfolding HashSet.insert
insert-All messages held m here all =
    ground (arith, All-append (In messages) held (m ∷ []) all (here, tt))

module _ {S : Type 0} where
  -- The REPAIR-COMMITs that are held were sent, and only STATE-REPLYs are sent to one node.
  abbrev pub CommitsSent : List Message → Replica S → Replica S → List Effect → Type 0
  CommitsSent messages r r' effects =
      (All (In messages) r.state.repair_commit_msgs → All (In messages) r'.state.repair_commit_msgs)
      × All Routed effects

  CommitsSent-transitive : (messages : List Message) → IsTransitive (CommitsSent messages)
  CommitsSent-transitive messages = record {
    stay = λ r. ((λ h. h), tt);
    chain = λ a b c es fs f g. ((λ h. g.0 (f.0 h)), All-append Routed es fs f.1 g.1);
  }

  module _ ⦃ops : KvStoreOps S⦄ (messages : List Message) where
    message-CommitsSent :
        (msg : Message) → In messages msg → MessageBlocks (Follows (CommitsSent messages)) msg
    unfolding on_speculate on_sync_threshold on_receive_sync on_receive_checkpoint on_conflict
        on_receive_timeout on_proof on_state_request on_state_reply on_receive_log_msg
        on_receive_repair_history on_receive_repair_prepare on_receive_repair_commit
        on_receive_repair_done
    message-CommitsSent msg sent = record {
      speculate = λ r r' effects e. ground arith;
      sync_threshold = λ r r' effects e. ground arith;
      receive_sync = λ r r' effects e. ground arith;
      receive_checkpoint = λ r r' effects e. ground arith;
      conflict = λ r r' effects e. ground arith;
      receive_timeout = λ r r' effects e. ground arith;
      proof = λ r r' effects e. ground arith;
      state_request = λ r r' effects e. ground arith;
      state_reply = λ r r' effects e. ground arith;
      receive_log = λ r r' effects e. ground arith;
      receive_history = λ r r' effects e. ground arith;
      receive_prepare = λ r r' effects e. ground arith;
      receive_commit =
          λ r r' effects e. ground (arith, insert-All messages r.state.repair_commit_msgs msg sent);
      receive_done = λ r r' effects e. ground arith;
    }

    event-CommitsSent : (ev : Event) → EventBlocks (Follows (CommitsSent messages)) ev
    unfolding on_sync_timeout on_chkpt_timeout on_repair_view_timeout
    event-CommitsSent ev = record {
      sync_timeout = λ r r' effects e. ground arith;
      chkpt_timeout = λ r r' effects e. ground arith;
      view_timeout = λ r r' effects e. ground arith;
    }

    by_input :
        (input : ReplicaInput)
        → WasSent messages input
        → Follows (CommitsSent messages) (λ r. handle_input r input)
    unfolding handle_input
    by_input (message msg) sent =
        Follows-process_message (CommitsSent messages) msg (CommitsSent-transitive messages)
          (message-CommitsSent msg sent)
    by_input (event ev) sent =
        Follows-handle_event (CommitsSent messages) ev (CommitsSent-transitive messages)
          (event-CommitsSent ev)

    pub run_node-CommitsSent :
        (inputs : List ReplicaInput) (r r' : Replica S)
        → All (WasSent messages) inputs
        → (run_node inputs r).1 ≡ done r'
        → CommitsSent messages r r' (run_node inputs r).0
    run_node-CommitsSent =
        run_node-related_where (CommitsSent messages) (CommitsSent-transitive messages)
          (WasSent messages) by_input

SentBy-signer : (v x : NodeId) (m : Message) → SentBy v m → signer m ≡ some x → x ≡ v
SentBy-signer v x (speculate _ _ _ _) sent is = absurd sent
SentBy-signer v x (timeout_proof _ _) sent is = cc
SentBy-signer v x (conflict_proof _ _) sent is = cc
SentBy-signer v x (spec_reply from _ _ _) sent is = cc
SentBy-signer v x (sync from _ _ _ _) sent is = cc
SentBy-signer v x (checkpoint from _ _ _) sent is = cc
SentBy-signer v x (state_request from _) sent is = cc
SentBy-signer v x (state_reply from _ _) sent is = cc
SentBy-signer v x (timeout_msg from _ _) sent is = cc
SentBy-signer v x (log_msg from _ _ _) sent is = cc
SentBy-signer v x (repair_history from _ _ _) sent is = cc
SentBy-signer v x (repair_prepare from _ _ _) sent is = cc
SentBy-signer v x (repair_commit from _ _ _) sent is = cc
SentBy-signer v x (repair_done from _ _ _) sent is = cc
SentBy-signer v x (committed_reply from _ _) sent is = cc

-- An effect of a node that carries a message in the name of one is that node's broadcast.
pub effect-signer :
    (v x : NodeId) (m : Message) (effects : List Effect) (e : Effect)
    → In effects e
    → All (EmittedBy v) effects
    → All Routed effects
    → Carries m e
    → signer m ≡ some x
    → (IsReply m → ⊥)
    → (x ≡ v) × In effects (broadcast m)
effect-signer v x m effects (broadcast m') here emitted routed carried is not_reply = (
  SentBy-signer v x m
      (subst (SentBy v) carried (All-In (EmittedBy v) effects (broadcast m') emitted here)) is,
  subst (λ y. In effects (broadcast y)) carried here,
)
effect-signer v x m effects (send to m') here emitted routed carried is not_reply =
    absurd (not_reply (subst IsReply carried (All-In Routed effects (send to m') routed here)))
