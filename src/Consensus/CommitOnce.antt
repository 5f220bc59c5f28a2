-- ===== src/Consensus/CommitOnce.antt =====
-- The REPAIR-COMMITs that a node broadcasts over a run (raspen/crates/consensus/src/node.rs drives
-- the handlers of replica.rs and repair.rs).
use raspen.Prelude.{
  ℕ, suc, ◌+◌, ◌<◌, ◌≡◌, refl, List, [], ◌∷◌, some, done, panic, length, get_elem?, arith, u64_mod,
}
use raspen.Types.{NodeId, repair_commit, Effect, broadcast, KvStoreOps}
use raspen.Consensus.Replica.{Replica, Handled}
use raspen.Consensus.Node.{ReplicaInput, message, event, handle_input, run_node, loop}
use raspen.Consensus.PhaseInvariant.{InRepairAgrees}
use raspen.Consensus.Rounds.{next_commit, EndsRound, message_rounds, event_ends}
use raspen.Consensus.Rounds.Order.{CommitsFrom, CommitsFrom-append, CommitsFrom-unique}

module _ {S : Type 0} ⦃ops : KvStoreOps S⦄ where
  input_rounds :
      (input : ReplicaInput) (r r' : Replica S) (effects : List Effect)
      → handle_input r input ≡ done (r', effects)
      → InRepairAgrees r
      → r.state.round + 1 < u64_mod
      → EndsRound r r' effects
  unfolding handle_input
  input_rounds (message msg) r r' effects e h small = message_rounds msg r r' effects e h small
  input_rounds (event ev) r r' effects e h small = event_ends ev r r' effects e h

  after_input :
      (input : ReplicaInput) (inputs : List ReplicaInput) (r : Replica S) (result : Handled S)
      → handle_input r input ≡ result
      → InRepairAgrees r
      → r.state.round + suc (length inputs) < u64_mod
      → ((r' : Replica S)
          → InRepairAgrees r'
          → r'.state.round + length inputs < u64_mod
          → CommitsFrom (next_commit r') (run_node inputs r').0)
      → CommitsFrom (next_commit r) (loop (run_node inputs) result).0
  after_input input inputs r (panic x) e h small rest = tt
  after_input input inputs r (done (r', effects)) e h small rest =
      let ends = input_rounds input r r' effects e h (omega arith) in
      CommitsFrom-append (next_commit r) (next_commit r') effects (run_node inputs r').0
        ends.commits (rest r' ends.agrees (omega (arith, ends.round)))

  run_node-CommitsFrom :
      (inputs : List ReplicaInput) (r : Replica S)
      → InRepairAgrees r
      → r.state.round + length inputs < u64_mod
      → CommitsFrom (next_commit r) (run_node inputs r).0
  unfolding run_node
  run_node-CommitsFrom [] r h small = tt
  run_node-CommitsFrom (input ∷ inputs) r h small =
      after_input input inputs r (handle_input r input) refl h small (run_node-CommitsFrom inputs)

  -- A node whose flag agrees with its phase, and whose round cannot reach 2^64 in as many inputs,
  -- broadcasts at most one REPAIR-COMMIT in a round, whatever messages and events arrive, also when
  -- it panics in the end: two that it executes with one round are the same effect.
  pub commit_once :
      (inputs : List ReplicaInput) (r : Replica S)
      → (i j : ℕ) (from from' : NodeId) (view view' round hist hist' : ℕ) → InRepairAgrees r
      → r.state.round + length inputs < u64_mod
      → get_elem? (run_node inputs r).0 i ≡ some (broadcast (repair_commit from view round hist))
      → get_elem? (run_node inputs r).0 j ≡ some (broadcast (repair_commit from' view' round hist'))
      → i ≡ j
  commit_once inputs r i j from from' view view' round hist hist' h small p q =
      CommitsFrom-unique (next_commit r) i j (run_node inputs r).0 from from' view view' round hist
        hist' (run_node-CommitsFrom inputs r h small) p q
