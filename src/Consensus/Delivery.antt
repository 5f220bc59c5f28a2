-- ===== src/Consensus/Delivery.antt =====
-- What reaches the state machine and the transport of a node, in every order of the steps of its
-- clients and its task (raspen/crates/consensus/src/node.rs).
use raspen.Prelude.{
  ℕ, ◌≤◌, ◌<◌, ◌≡◌, refl, sym, ap, ◌∙◌, subst, some, List, [], ◌∷◌, ◌++◌, append_assoc, length,
  length-snoc, Outcome, done, panic, arith,
}
use raspen.Types.{Effect}
use raspen.Consensus.Node.{ReplicaInput}
use raspen.Consensus.Transport.{StateMachine, Transport, replica_machine, execute, execute-append}
use raspen.Consensus.Actor.{
  Task, running, finished, panicked, Actor, accepted, start, submit_to, submit, close, handle,
  execute_some, handled, receive_from, receive,
}
use raspen.Consensus.Machine.{run_machine, one_more-done, one_more-panic, run_machine-snoc}

-- What the task has come to.
abbrev pub outcome_of : {M : Type 0} → Task M → Outcome M
outcome_of (running m) = done m
outcome_of (finished m) = done m
outcome_of (panicked e) = panic e

execute_some-eq-execute :
    {T : Type 0} ⦃transport : Transport T⦄ (t : T) (es : List Effect)
    → execute_some t es ≡ execute t es
unfolding execute_some execute
execute_some-eq-execute t [] = refl
execute_some-eq-execute t (e ∷ es) = refl

module _ {M T : Type 0} ⦃machine : StateMachine M⦄ ⦃transport : Transport T⦄ where
  -- What a node may come to, with the inputs whose submission was accepted, in order.
  pub data Reach (m : M) (t : T) (capacity : ℕ) : List ReplicaInput → Actor M T → Type 0 where
    started : Reach m t capacity [] (start m t capacity)
    submitted :
        {inputs : List ReplicaInput} {a a' : Actor M T} (input : ReplicaInput)
        → Reach m t capacity inputs a
        → submit a input ≡ accepted a'
        → Reach m t capacity (inputs ++ input ∷ []) a'
    received :
        {inputs : List ReplicaInput} {a a' : Actor M T}
        → Reach m t capacity inputs a
        → receive a ≡ some a'
        → Reach m t capacity inputs a'
    closed :
        {inputs : List ReplicaInput} {a : Actor M T}
        → Reach m t capacity inputs a
        → Reach m t capacity inputs (close a)

  -- Some of the inputs were handled, in order, and the others wait in the queue, in order.
  pub record Delivered (m : M) (t : T) (capacity : ℕ) (inputs : List ReplicaInput) (a : Actor M T)
      : Type 0 where
    pub taken : List ReplicaInput
    pub in_order : inputs ≡ taken ++ a.queue
    pub transported : a.transport ≡ execute t (run_machine taken m).0
    pub task : (run_machine taken m).1 ≡ outcome_of a.task
    pub bounded : length a.queue ≤ capacity
    pub capacity' : a.capacity ≡ capacity

  accepted-inv :
      (task : Task M) (a a' : Actor M T) (input : ReplicaInput)
      → submit_to task a input ≡ accepted a'
      → (length a.queue < a.capacity) × (record a { queue = a.queue ++ input ∷ [] } ≡ a')
  unfolding submit_to
  accepted-inv (running m) a a' input h = ground arith
  accepted-inv (finished m) a a' input h = cc
  accepted-inv (panicked e) a a' input h = cc

  submitted-Delivered :
      (m : M) (t : T) (capacity : ℕ) (inputs : List ReplicaInput) (a a' : Actor M T)
      (input : ReplicaInput)
      → submit a input ≡ accepted a'
      → Delivered m t capacity inputs a
      → Delivered m t capacity (inputs ++ input ∷ []) a'
  unfolding submit
  submitted-Delivered m t capacity inputs a a' input h d =
      let (room, is) = accepted-inv a.task a a' input h in
      subst (Delivered m t capacity (inputs ++ input ∷ [])) is (record {
        taken = d.taken;
        in_order =
            ap (λ (l : List ReplicaInput). l ++ input ∷ []) d.in_order
            ∙ append_assoc d.taken a.queue (input ∷ []);
        transported = d.transported;
        task = d.task;
        bounded = omega (arith, room, d.capacity', length-snoc a.queue input);
        capacity' = d.capacity';
      })

  handled-Delivered :
      (m : M) (t : T) (capacity : ℕ) (inputs queue : List ReplicaInput) (a : Actor M T) (now : M)
      (input : ReplicaInput) (result : Outcome (M × List Effect))
      → a.task ≡ running now
      → a.queue ≡ input ∷ queue
      → handle now input ≡ result
      → Delivered m t capacity inputs a
      → Delivered m t capacity inputs (handled (record a { queue = queue }) result)
  unfolding handled
  handled-Delivered m t capacity inputs queue a now input (panic e) is_now waits is d =
      let ended = d.task ∙ ap outcome_of is_now in
      let last =
        run_machine-snoc d.taken input m
        ∙ one_more-panic (run_machine d.taken m) input now e ended is in
      record {
        taken = d.taken ++ input ∷ [];
        in_order = d.in_order ∙ rw waits (sym (append_assoc d.taken (input ∷ []) queue));
        transported = d.transported ∙ rw last;
        task = rw last;
        bounded = omega (arith, d.bounded, ap (λ (l : List ReplicaInput). length l) waits);
        capacity' = d.capacity';
      }
  handled-Delivered m t capacity inputs queue a now input (done (m', es)) is_now waits is d =
      let ended = d.task ∙ ap outcome_of is_now in
      let last =
        run_machine-snoc d.taken input m
        ∙ one_more-done (run_machine d.taken m) input now m' es ended is in
      record {
        taken = d.taken ++ input ∷ [];
        in_order = d.in_order ∙ rw waits (sym (append_assoc d.taken (input ∷ []) queue));
        transported =
            execute_some-eq-execute a.transport es
            ∙ ap (λ (u : T). execute u es) d.transported
            ∙ sym (execute-append t (run_machine d.taken m).0 es)
            ∙ rw last;
        task = rw last;
        bounded = omega (arith, d.bounded, ap (λ (l : List ReplicaInput). length l) waits);
        capacity' = d.capacity';
      }

  received-Delivered :
      (m : M) (t : T) (capacity : ℕ) (inputs : List ReplicaInput) (a a' : Actor M T) (task : Task M)
      (queue : List ReplicaInput)
      → a.task ≡ task
      → a.queue ≡ queue
      → receive_from task queue a ≡ some a'
      → Delivered m t capacity inputs a
      → Delivered m t capacity inputs a'
  unfolding receive_from
  received-Delivered m t capacity inputs a a' (running now) (input ∷ queue) is_now waits h d =
      subst (Delivered m t capacity inputs) (ground arith) (
        handled-Delivered m t capacity inputs queue a now input (handle now input) is_now waits refl
          d)
  received-Delivered m t capacity inputs a a' (running now) [] is_now waits h d =
      let ended : record a { task = finished now } ≡ a' = ground arith in
      subst (Delivered m t capacity inputs) ended (record {
        taken = d.taken;
        in_order = d.in_order;
        transported = d.transported;
        task = d.task ∙ ap outcome_of is_now;
        bounded = d.bounded;
        capacity' = d.capacity';
      })
  received-Delivered m t capacity inputs a a' (finished now) queue is_now waits h d = cc
  received-Delivered m t capacity inputs a a' (panicked e) queue is_now waits h d = cc

  -- Whatever the order of the submissions, the turns of the loop and the closing of the channel, a
  -- node has handled a first part of the accepted inputs in their order, the rest waits in the queue
  -- in order, the transport has executed just the effects of the handled part, in order, the task
  -- holds what the machine has come to over that part, or its panic, and the queue never exceeds the
  -- capacity of the channel.
  pub Reach-Delivered :
      (m : M) (t : T) (capacity : ℕ) (inputs : List ReplicaInput) (a : Actor M T)
      → Reach m t capacity inputs a
      → Delivered m t capacity inputs a
  unfolding execute run_machine receive close
  Reach-Delivered m t capacity inputs a started = record {
    taken = [];
    in_order = refl;
    transported = refl;
    task = refl;
    bounded = omega arith;
    capacity' = refl;
  }
  Reach-Delivered m t capacity inputs a' (submitted {inputs = before} {a = a} input r h) =
      submitted-Delivered m t capacity before a a' input h (Reach-Delivered m t capacity before a r)
  Reach-Delivered m t capacity inputs a' (received {a = a} r h) =
      received-Delivered m t capacity inputs a a' a.task a.queue refl refl h
        (Reach-Delivered m t capacity inputs a r)
  Reach-Delivered m t capacity inputs a' (closed {a = a} r) =
      let d = Reach-Delivered m t capacity inputs a r in
      record {
        taken = d.taken;
        in_order = d.in_order;
        transported = d.transported;
        task = d.task;
        bounded = d.bounded;
        capacity' = d.capacity';
      }
