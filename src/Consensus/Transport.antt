-- ===== src/Consensus/Transport.antt =====
-- raspen/crates/consensus/src/transport.rs and state_machine.rs: the traits between which
-- `Node::start` runs. A call through `&self` of a transport returns the transport after it.
use raspen.Prelude.{◌≡◌, refl, List, [], ◌∷◌, ◌++◌, Outcome}
use raspen.Types.{NodeId, Message, Event, Effect, broadcast, send, KvStoreOps}
use raspen.Consensus.Replica.{Replica}
use raspen.Consensus.Dispatch.{process_message, handle_event}

-- The trait `StateMachine`.
pub record StateMachine (M : Type 0) : Type 0 where
  pub process_message : M → Message → Outcome (M × List Effect)
  pub handle_event : M → Event → Outcome (M × List Effect)

-- `impl StateMachine for Replica`
instance abbrev pub replica_machine : {S : Type 0} ⦃ops : KvStoreOps S⦄ → StateMachine (Replica S)
replica_machine = record { process_message = process_message; handle_event = handle_event }

-- The trait `Transport`, without its provided method.
pub record Transport (T : Type 0) : Type 0 where
  pub broadcast : T → Message → T
  pub send : T → NodeId → Message → T

module _ {T : Type 0} ⦃transport : Transport T⦄ where
  abbrev pub execute_one : T → Effect → T
  execute_one t (broadcast msg) = transport.broadcast t msg
  execute_one t (send to msg) = transport.send t to msg

  unfoldable pub execute : T → List Effect → T
  execute t [] = t
  execute t (effect ∷ effects) = execute (execute_one t effect) effects

  -- The effects of one list after those of another.
  pub execute-append :
      (t : T) (es fs : List Effect) → execute t (es ++ fs) ≡ execute (execute t es) fs
  unfolding execute
  execute-append t [] fs = refl
  execute-append t (e ∷ es) fs = execute-append (execute_one t e) es fs
