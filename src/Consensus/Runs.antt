-- ===== src/Consensus/Runs.antt =====
-- What holds of a node over a whole run (raspen/crates/consensus/src/node.rs).
use raspen.Prelude.{
  ℕ, suc, ◌+◌, ◌≤◌, ◌≡◌, refl, subst, length, arith, List, [], ◌∷◌, Outcome, done, panic,
  done-injective, Returns, All,
}
use raspen.Types.{Effect, Message, Event, KvStoreOps}
use raspen.Storage.Contract.{KvStoreLaws}
use raspen.Consensus.Replica.{Replica, Handled}
use raspen.Consensus.Node.{ReplicaInput, message, event, handle_input, loop, run_node}
use raspen.Consensus.Blocks.{Follows, IsTransitive}
use raspen.Consensus.Dispatch.{process_message, handle_event}
use raspen.Consensus.PhaseInvariant.{
  InRepairAgrees, process_message-InRepairAgrees, handle_event-InRepairAgrees,
}
use raspen.Consensus.Backing.Evidence.{Backs, Backs-transitive}
use raspen.Consensus.Backing.{process_message-Backs, handle_event-Backs}
use raspen.Consensus.Frame.{Frame, Frame-transitive, process_message-Frame, handle_event-Frame}
use raspen.Consensus.Alignment.{vec_capacity}
use raspen.Consensus.NoPanic.Sizes.{Fits, IsDense}
use raspen.Consensus.NoPanic.{process_message-IsSafe, handle_event-IsSafe}

-- A message asks for no rebuild that does not fit in a `Vec`.
abbrev pub InputFits : ReplicaInput → Type 0
InputFits (message msg) = Fits msg
InputFits (event ev) = Unit

every_input : (inputs : List ReplicaInput) → All (λ input. Unit {0}) inputs
every_input [] = tt
every_input (input ∷ inputs) = (tt, every_input inputs)

module _ {S : Type 0} ⦃ops : KvStoreOps S⦄ where
  -- A relation that every input of a run keeps holds of the whole run, if it returns.
  module _ (R : Replica S → Replica S → List Effect → Type 0) (t : IsTransitive R)
      (P : ReplicaInput → Type 0)
      (by_input : (input : ReplicaInput) → P input → Follows R (λ r. handle_input r input)) where
    after_result :
        (r r' : Replica S) (rest : Replica S → List Effect × Outcome (Replica S))
        (result : Handled S)
        → ((a : Replica S) (es : List Effect) → result ≡ done (a, es) → R r a es)
        → ((a : Replica S) → (rest a).1 ≡ done r' → R a r' (rest a).0)
        → (loop rest result).1 ≡ done r'
        → R r r' (loop rest result).0
    after_result r r' rest (panic x) first later e = cc
    after_result r r' rest (done (a, es)) first later e =
        t.chain r a r' es (rest a).0 (first a es refl) (later a e)

    pub run_node-related_where :
        (inputs : List ReplicaInput) (r r' : Replica S)
        → All P inputs
        → (run_node inputs r).1 ≡ done r'
        → R r r' (run_node inputs r).0
    unfolding run_node
    run_node-related_where [] r r' h e = subst (λ x. R r x []) (done-injective e) (t.stay r)
    run_node-related_where (input ∷ inputs) r r' h e =
        after_result r r' (run_node inputs) (handle_input r input) (by_input input h.0 r)
          (λ a. run_node-related_where inputs a r' h.1) e

  module _ (R : Replica S → Replica S → List Effect → Type 0) (t : IsTransitive R)
      (by_message : (msg : Message) → Follows R (λ r. process_message r msg))
      (by_event : (ev : Event) → Follows R (λ r. handle_event r ev)) where
    by_input : (input : ReplicaInput) → Unit {0} → Follows R (λ r. handle_input r input)
    unfolding handle_input
    by_input (message msg) any = by_message msg
    by_input (event ev) any = by_event ev

    pub run_node-related :
        (inputs : List ReplicaInput) (r r' : Replica S)
        → (run_node inputs r).1 ≡ done r'
        → R r r' (run_node inputs r).0
    run_node-related inputs r r' =
        run_node-related_where R t (λ input. Unit {0}) by_input inputs r r' (every_input inputs)

  -- Over a whole run that does not panic, no received message is forgotten, and at its end the node
  -- still holds what backs each proof and vote that it broadcast since its start (see `BackedMessage`).
  pub run_node-Backs :
      (inputs : List ReplicaInput) (r r' : Replica S)
      → (run_node inputs r).1 ≡ done r'
      → Backs r r' (run_node inputs r).0
  run_node-Backs = run_node-related Backs Backs-transitive process_message-Backs handle_event-Backs

  -- Over a whole run that does not panic, the node keeps its name, its configuration and its
  -- `eta_star`, and everything it sent is in its own name or has no sender.
  pub run_node-Frame :
      (inputs : List ReplicaInput) (r r' : Replica S)
      → (run_node inputs r).1 ≡ done r'
      → Frame r r' (run_node inputs r).0
  run_node-Frame = run_node-related Frame Frame-transitive process_message-Frame handle_event-Frame

  module _ (laws : KvStoreLaws S) where
    -- What holds of a replica that has room for more LOGs.
    abbrev Ready : ℕ → Replica S → Type 0
    Ready spare r = IsDense laws r × (length r.state.log_msgs + spare ≤ vec_capacity)

    input_safe :
        (input : ReplicaInput) (spare : ℕ) (r : Replica S)
        → InputFits input
        → Ready (suc spare) r
        → Returns (λ x. Ready spare x.0) (handle_input r input)
    unfolding handle_input
    input_safe (message msg) spare r fits (d, room) =
        process_message-IsSafe laws msg spare r fits d room
    input_safe (event ev) spare r fits (d, room) =
        handle_event-IsSafe laws ev spare r d (omega arith)

    input_agrees :
        (input : ReplicaInput) (r r' : Replica S) (effects : List Effect)
        → handle_input r input ≡ done (r', effects)
        → InRepairAgrees r
        → InRepairAgrees r'
    unfolding handle_input
    input_agrees (message msg) = process_message-InRepairAgrees msg
    input_agrees (event ev) = handle_event-InRepairAgrees ev

    after_safe :
        (spare : ℕ) (rest : Replica S → List Effect × Outcome (Replica S)) (result : Handled S)
        → Returns (λ x. Ready spare x.0) result
        → ((a : Replica S) (es : List Effect) → result ≡ done (a, es) → InRepairAgrees a)
        → ((a : Replica S)
            → Ready spare a
            → InRepairAgrees a
            → Returns (λ b. IsDense laws b × InRepairAgrees b) (rest a).1)
        → Returns (λ b. IsDense laws b × InRepairAgrees b) (loop rest result).1
    after_safe spare rest (panic x) safe agrees later = safe
    after_safe spare rest (done (a, es)) safe agrees later = later a safe (agrees a es refl)

    -- Over a store that keeps its contract, a node whose log is dense, whose sizes are bounded
    -- (`IsDense`) and whose `in_repair` agrees with its phase handles without a panic every sequence
    -- of messages and events in which no message asks for a rebuild that does not fit in a `Vec`
    -- (`InputFits`), if the LOGs that it holds and the inputs are together no more than fit in one;
    -- its log is dense, its sizes are bounded and its `in_repair` agrees with its phase at the end.
    pub run_node-Returns :
        (inputs : List ReplicaInput) (r : Replica S)
        → All InputFits inputs
        → IsDense laws r
        → InRepairAgrees r
        → length r.state.log_msgs + length inputs ≤ vec_capacity
        → Returns (λ r'. IsDense laws r' × InRepairAgrees r') (run_node inputs r).1
    unfolding run_node
    run_node-Returns [] r fits d h few = (d, h)
    run_node-Returns (input ∷ inputs) r fits d h few =
        after_safe (length inputs) (run_node inputs) (handle_input r input)
          (input_safe input (length inputs) r fits.0 (d, few))
          (λ a es e. input_agrees input r a es e h)
          λ a ready agrees. run_node-Returns inputs a fits.1 ready.0 agrees ready.1
