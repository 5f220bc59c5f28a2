-- ===== src/Cluster.antt =====
-- Several replicas (raspen/crates/consensus/src) and the messages between them. The network is that of
-- specs/choreo/choreo.qnt: what was sent to a node stays there, and may arrive at any time.
pub mod Counts
pub mod Held
pub mod Senders
pub mod Projection
pub mod Signed
pub mod Agreement
pub mod Synced
pub mod Checkpoints
use raspen.Prelude.{ℕ, suc, ◌≡◌, List, [], ◌∷◌, done, bytes_eq, if◌then◌else◌}
use raspen.Types.{NodeId, Message, Effect, Event, Config, KvStoreOps}
use raspen.Consensus.Replica.{Replica, initial}
use raspen.Consensus.Node.{ReplicaInput, message, event, handle_input}
use raspen.Spec.Steps.{In}
use raspen.Spec.System.{update, apply_effects}

-- The input is one of the messages, or one of the events.
abbrev pub Among : List Message → List Event → ReplicaInput → Type 0
Among messages events (message msg) = In messages msg
Among messages events (event ev) = In events ev

-- The replicas, and the messages that were sent to each node.
pub record Cluster (S : Type 0) : Type 0 where
  pub replicas : NodeId → Replica S
  pub messages : NodeId → List Message

module _ {S : Type 0} where
  -- Each replica as `Replica::new` makes it, over a store of its own; the messages are those of nodes
  -- that follow no protocol.
  abbrev pub started : Config → (NodeId → S) → (NodeId → List Message) → Cluster S
  started c store messages = record { replicas = λ p. initial c p (store p); messages = messages }

  module _ ⦃ops : KvStoreOps S⦄ (events : NodeId → List Event) where
    -- A replica handles a message that was sent to it or an event, and its effects are carried out.
    pub data ClusterStep (cl : Cluster S) : Cluster S → Type 0 where
      handles :
          (v : NodeId) (input : ReplicaInput) (r' : Replica S) (effects : List Effect)
          → Among (cl.messages v) (events v) input
          → handle_input (cl.replicas v) input ≡ done (r', effects)
          → ClusterStep cl (record {
            replicas = update v r' cl.replicas;
            messages = apply_effects effects cl.messages;
          })

    pub data ClusterSteps : Cluster S → Cluster S → Type 0 where
      at_rest : {cl : Cluster S} → ClusterSteps cl cl
      then_handles :
          {cl next end : Cluster S}
          → ClusterStep cl next
          → ClusterSteps next end
          → ClusterSteps cl end

    unfoldable pub steps_count : {cl end : Cluster S} → ClusterSteps cl end → ℕ
    steps_count at_rest = 0
    steps_count (then_handles first later) = suc (steps_count later)

    -- The inputs that one node handles, in order.
    unfoldable pub inputs_at :
        (v : NodeId) {cl end : Cluster S} → ClusterSteps cl end → List ReplicaInput
    inputs_at v at_rest = []
    inputs_at v (then_handles (handles x input r' effects among is) later) =
        let inputs = inputs_at v later in if bytes_eq v x then input ∷ inputs else inputs
