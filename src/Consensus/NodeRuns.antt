-- ===== src/Consensus/NodeRuns.antt =====
-- A node that runs a replica (raspen/crates/consensus/src/node.rs over replica.rs).
use raspen.Prelude.{
  ℕ, zero, suc, ◌+◌, ◌≤◌, All, ◌≡◌, ◌≢◌, refl, sym, ap, ◌∙◌, subst, Option, none, some, List, [],
  ◌∷◌, ◌++◌, append-nil, length, Outcome, done, panic, Error, arith, Returns,
}
use raspen.Types.{Effect, KvStoreOps}
use raspen.Storage.Contract.{KvStoreLaws}
use raspen.Consensus.Replica.{Replica, Handled}
use raspen.Consensus.Node.{ReplicaInput, message, event, handle_input, loop, run_node}
use raspen.Consensus.Transport.{Transport, replica_machine, execute}
use raspen.Consensus.Actor.{running, panicked, Actor, handle, handled, receive_from, receive}
use raspen.Consensus.PhaseInvariant.{InRepairAgrees}
use raspen.Consensus.NoPanic.Sizes.{IsDense}
use raspen.Consensus.Alignment.{vec_capacity}
use raspen.Consensus.Runs.{InputFits, run_node-Returns}
use raspen.Consensus.Machine.{run_machine, after_handled}
use raspen.Consensus.Delivery.{Reach, received, Reach-Delivered, outcome_of}

nil_of_length : (xs : List ReplicaInput) → length xs ≡ 0 → xs ≡ []
nil_of_length [] h = refl
nil_of_length (x ∷ xs) h = absurd (omega arith)

cons_of_length :
    (xs : List ReplicaInput) (n : ℕ)
    → length xs ≡ suc n
    → (x : ReplicaInput) × (rest : List ReplicaInput) × (xs ≡ x ∷ rest)
cons_of_length [] n h = absurd (omega arith)
cons_of_length (x ∷ xs) n h = (x, xs, refl)

All-front : (xs ys : List ReplicaInput) → All InputFits (xs ++ ys) → All InputFits xs
All-front [] ys all = tt
All-front (x ∷ xs) ys all = (all.0, All-front xs ys all.1)

length-append : (xs ys : List ReplicaInput) → length (xs ++ ys) ≡ length xs + length ys
length-append [] ys = omega arith
length-append (x ∷ xs) ys = omega (arith, length-append xs ys)

module _ {S : Type 0} ⦃ops : KvStoreOps S⦄ where
  handle-handle_input :
      (r : Replica S) (input : ReplicaInput) → handle r input ≡ handle_input r input
  unfolding handle handle_input
  handle-handle_input r (message msg) = refl
  handle-handle_input r (event ev) = refl

  after_handled-loop :
      (inputs : List ReplicaInput) (result : Handled S)
      → ((r : Replica S) → run_machine inputs r ≡ run_node inputs r)
      → after_handled (run_machine inputs) result ≡ loop (run_node inputs) result
  after_handled-loop inputs (panic e) ih = refl
  after_handled-loop inputs (done (r', effects)) ih = rw (ih r')

  run_machine-run_node :
      (inputs : List ReplicaInput) (r : Replica S) → run_machine inputs r ≡ run_node inputs r
  unfolding run_machine run_node
  run_machine-run_node [] r = refl
  run_machine-run_node (input ∷ inputs) r =
      ap (after_handled (run_machine inputs)) (handle-handle_input r input)
      ∙ after_handled-loop inputs (handle_input r input) (run_machine-run_node inputs)

  module _ {T : Type 0} ⦃transport : Transport T⦄ where
    -- Once the queue of a node is empty, its transport has executed just the effects of all accepted
    -- inputs, in order, whatever the order of the submissions, the turns and the closing was.
    pub drained-executes :
        (r : Replica S) (t : T) (capacity : ℕ) (inputs : List ReplicaInput)
        (a : Actor (Replica S) T)
        → Reach r t capacity inputs a
        → a.queue ≡ []
        → a.transport ≡ execute t (run_node inputs r).0
    drained-executes r t capacity inputs a reach empty =
        let d = Reach-Delivered r t capacity inputs a reach in
        let all : inputs ≡ d.taken =
          d.in_order ∙ ap (λ (l : List ReplicaInput). d.taken ++ l) empty ∙ append-nil d.taken in
        d.transported
        ∙ ap (λ (l : List ReplicaInput). execute t (run_machine l r).0) (sym all)
        ∙ ap (λ (x : List Effect × Outcome (Replica S)). execute t x.0)
            (run_machine-run_node inputs r)

    abbrev pub and_turn :
        (Actor (Replica S) T → Option (Actor (Replica S) T))
        → Option (Actor (Replica S) T)
        → Option (Actor (Replica S) T)
    and_turn rest none = none
    and_turn rest (some a) = rest a

    -- A number of turns of the loop.
    unfoldable pub turns : ℕ → Actor (Replica S) T → Option (Actor (Replica S) T)
    turns zero a = some a
    turns (suc n) a = and_turn (turns n) (receive a)

    turns-suc :
        (n : ℕ) (a a' : Actor (Replica S) T) → receive a ≡ some a' → turns (suc n) a ≡ turns n a'
    unfolding turns
    turns-suc n a a' h = ap (and_turn (turns n)) h

    module _ (laws : KvStoreLaws S) where
      never_panics :
          (r : Replica S) (t : T) (capacity : ℕ) (inputs : List ReplicaInput)
          (a : Actor (Replica S) T) (e : Error)
          → All InputFits inputs
          → IsDense laws r
          → InRepairAgrees r
          → length r.state.log_msgs + length inputs ≤ vec_capacity
          → Reach r t capacity inputs a
          → a.task ≢ panicked e
      never_panics r t capacity inputs a e fit dense agrees few reach stopped =
          let d = Reach-Delivered r t capacity inputs a reach in
          let split = d.in_order in
          let safe =
            run_node-Returns laws d.taken r
              (All-front d.taken a.queue (subst (λ l. All InputFits l) split fit)) dense agrees
              (omega (
                arith,
                few,
                length-append d.taken a.queue,
                ap (λ (l : List ReplicaInput). length l) split,
              )) in
          let is : (run_node d.taken r).1 ≡ panic e =
            ap (λ (x : List Effect × Outcome (Replica S)). x.1)
              (sym (run_machine-run_node d.taken r))
            ∙ d.task
            ∙ ap outcome_of stopped in
          subst (Returns (λ r'. IsDense laws r' × InRepairAgrees r')) is safe

      -- A turn of a node that runs and has an input to take.
      next_turn :
          (a : Actor (Replica S) T) (now : Replica S) (input : ReplicaInput)
          (queue : List ReplicaInput)
          → a.task ≡ running now
          → a.queue ≡ input ∷ queue
          → receive a ≡ some (handled (record a { queue = queue }) (handle now input))
      unfolding receive receive_from
      next_turn a now input queue is_now waits = rw (is_now, waits)

      -- A handled input that was no panic leaves the task running, and the queue as it is.
      still_running :
          (a : Actor (Replica S) T) (result : Handled S)
          → ((e : Error) → (handled a result).task ≢ panicked e)
          → ((handled a result).queue ≡ a.queue)
            × (now : Replica S) × ((handled a result).task ≡ running now)
      unfolding handled
      still_running a (panic e) alive = absurd (alive e refl)
      still_running a (done (r', effects)) alive = (refl, r', refl)

      -- Over a store that keeps its contract, a node that starts with a replica whose log is dense,
      -- whose sizes are bounded (`IsDense`) and whose `in_repair` agrees with its phase never stops
      -- while inputs wait, if no accepted message asks for a rebuild that does not fit in a `Vec`
      -- (`InputFits`), and the LOGs that the replica holds at first and the accepted inputs are
      -- together no more than fit in one: from every state that it reaches while its task runs, as many turns of the loop as there are inputs in the queue
      -- empty the queue, leave the task running, and the transport has executed just the effects of
      -- all accepted inputs, in order.
      pub node_drains :
          (n : ℕ) (r : Replica S) (t : T) (capacity : ℕ) (inputs : List ReplicaInput)
          (a : Actor (Replica S) T) (now : Replica S)
          → All InputFits inputs
          → IsDense laws r
          → InRepairAgrees r
          → length r.state.log_msgs + length inputs ≤ vec_capacity
          → Reach r t capacity inputs a
          → a.task ≡ running now
          → length a.queue ≡ n
          → (a' : Actor (Replica S) T) × (later : Replica S) × (turns n a ≡ some a')
            × (a'.queue ≡ [])
            × (a'.task ≡ running later)
            × (a'.transport ≡ execute t (run_node inputs r).0)
      unfolding turns
      node_drains zero r t capacity inputs a now fit dense agrees few reach is_now count =
          let empty = nil_of_length a.queue count in
          (a, now, refl, empty, is_now, drained-executes r t capacity inputs a reach empty)
      node_drains (suc n) r t capacity inputs a now fit dense agrees few reach is_now count =
          let (input, queue, waits) = cons_of_length a.queue n count in
          let turn = next_turn a now input queue is_now waits in
          let a1 = handled (record a { queue = queue }) (handle now input) in
          let reach1 : Reach r t capacity inputs a1 = received reach turn in
          let (kept, now1, is_now1) =
            still_running (record a { queue = queue }) (handle now input)
              (λ e. never_panics r t capacity inputs a1 e fit dense agrees few reach1) in
          let shorter : length a1.queue ≡ n =
            ap (λ (l : List ReplicaInput). length l) kept
            ∙ omega (arith, ap (λ (l : List ReplicaInput). length l) waits) in
          let (a', later, runs, empty, is_later, sent) =
            node_drains n r t capacity inputs a1 now1 fit dense agrees few reach1 is_now1 shorter in
          (a', later, turns-suc n a a1 turn ∙ runs, empty, is_later, sent)
