-- ===== src/Consensus/Actor.antt =====
-- raspen/crates/consensus/src/node.rs: the actor behind a `Node`, with its bounded channel of inputs.
-- The channel keeps the order of what is sent, and a send waits while it is full; a send to a task
-- that has ended fails (tokio's `mpsc`).
use raspen.Prelude.{
  ℕ, Bool, true, false, Option, none, some, List, [], ◌∷◌, ◌++◌, length, ltb, Outcome, done, panic,
  Error, if◌then◌else◌,
}
use raspen.Types.{Effect}
use raspen.Consensus.Node.{ReplicaInput, message, event}
use raspen.Consensus.Transport.{StateMachine, Transport, execute}

-- The blocking task: in its loop, at its end after the channel was closed, or dead of a panic.
pub data Task (M : Type 0) : Type 0 where
  running finished : M → Task M
  panicked : Error → Task M

pub record Actor (M T : Type 0) : Type 0 where
  pub task : Task M
  pub queue : List ReplicaInput
  pub capacity : ℕ
  -- some `Node` still holds a sender
  pub is_open : Bool
  pub transport : T

-- What `tx.send(...).await` comes to.
pub data Submitted (M T : Type 0) : Type 0 where
  accepted : Actor M T → Submitted M T
  waiting refused : Submitted M T

module _ {M T : Type 0} where
  abbrev pub start : M → T → ℕ → Actor M T
  start m transport capacity = record {
    task = running m;
    queue = [];
    capacity = capacity;
    is_open = true;
    transport = transport;
  }

  unfoldable pub submit_to : Task M → Actor M T → ReplicaInput → Submitted M T
  submit_to (running m) a input =
      if ltb (length a.queue) a.capacity
      then accepted (record a { queue = a.queue ++ input ∷ [] })
      else waiting
  submit_to _ a input = refused

  -- `submit_message` and `submit_event`
  unfoldable pub submit : Actor M T → ReplicaInput → Submitted M T
  unfolding submit_to
  submit a input = submit_to a.task a input

  -- The last `Node` is dropped.
  unfoldable pub close : Actor M T → Actor M T
  close a = record a { is_open = false }

module _ {M : Type 0} ⦃machine : StateMachine M⦄ where
  unfoldable pub handle : M → ReplicaInput → Outcome (M × List Effect)
  handle m (message msg) = machine.process_message m msg
  handle m (event ev) = machine.handle_event m ev

module _ {T : Type 0} ⦃transport : Transport T⦄ where
  -- `if !effects.is_empty() { transport.execute(effects) }`
  unfoldable pub execute_some : T → List Effect → T
  unfolding execute
  execute_some t [] = t
  execute_some t (effect ∷ effects) = execute t (effect ∷ effects)

module _ {M T : Type 0} ⦃machine : StateMachine M⦄ ⦃transport : Transport T⦄ where
  -- What the loop makes of one handled input.
  unfoldable pub handled : Actor M T → Outcome (M × List Effect) → Actor M T
  unfolding execute_some
  handled a (done (m, effects)) = record a {
    task = running m;
    transport = execute_some a.transport effects;
  }
  handled a (panic e) = record a { task = panicked e }

  unfoldable pub receive_from : Task M → List ReplicaInput → Actor M T → Option (Actor M T)
  unfolding handle handled
  receive_from (running m) (input ∷ queue) a =
      some (handled (record a { queue = queue }) (handle m input))
  receive_from (running m) [] a = if a.is_open then none else some (record a { task = finished m })
  receive_from _ queue a = none

  -- One turn of the loop; none while the task waits for an input, or has ended.
  unfoldable pub receive : Actor M T → Option (Actor M T)
  unfolding receive_from
  receive a = receive_from a.task a.queue a
