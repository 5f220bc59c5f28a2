-- ===== src/Consensus/Node.antt =====
-- raspen/crates/consensus/src/node.rs, state_machine.rs and transport.rs: the loop of the actor.
use raspen.Prelude.{List, [], ◌∷◌, ◌++◌, Outcome, done, panic}
use raspen.Types.{Message, Event, Effect, KvStoreOps}
use raspen.Consensus.Replica.{Replica, Handled}
use raspen.Consensus.Dispatch.{process_message, handle_event}

pub data ReplicaInput : Type 0 where
  message : Message → ReplicaInput
  event : Event → ReplicaInput

module _ {S : Type 0} where
  module _ ⦃ops : KvStoreOps S⦄ where
    -- `impl StateMachine for Replica`
    unfoldable pub handle_input : Replica S → ReplicaInput → Handled S
    handle_input r (message msg) = process_message r msg
    handle_input r (event ev) = handle_event r ev

    -- What the loop makes of one result: the effects are executed, in order; a panic ends the task.
    abbrev pub loop :
        (Replica S → List Effect × Outcome (Replica S))
        → Handled S
        → List Effect × Outcome (Replica S)
    loop rest (panic e) = ([], panic e)
    loop rest (done (r, effects)) = let (later, end) = rest r in (effects ++ later, end)

    -- The actor from its start until the channel is closed: the effects that the transport executed,
    -- and the replica at the end.
    unfoldable pub run_node : List ReplicaInput → Replica S → List Effect × Outcome (Replica S)
    run_node [] r = ([], done r)
    run_node (input ∷ inputs) r = loop (run_node inputs) (handle_input r input)
