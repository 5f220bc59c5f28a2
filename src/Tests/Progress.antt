-- ===== src/Tests/Progress.antt =====
-- A node that ends a round of REPAIR, and one that is fed by the sequencer, at concrete inputs.
use native.Mathlib.Decide.{ℕ_discrete}
use raspen.Prelude.{Returns, ℕ, ◌≡◌, refl, Option, none, some, All, List, [], ◌∷◌, arith, count_if}
use raspen.Prelude.HashSet
use raspen.Types.{
  Hash, Message-discrete, repair_history, checkpoint, zero_hash, sync_timeout, repair_view_timeout,
}
use raspen.Storage.MemKvStore
use raspen.Storage.MemKvStore.{MemKvStore, mem_ops}
use raspen.Sequencer
use raspen.Sequencer.{submit_all}
use raspen.Consensus.Sequenced.{Extends, delivered, submit_all-Extends}
use raspen.Consensus.Sequenced.Quiet.{IsQuiet}
use raspen.Storage.Refinement.{mem_laws}
use raspen.Consensus.Node.{ReplicaInput, message, event, run_node}
use raspen.Consensus.Progress.Leaving.{Leaves, InputProposes}
use raspen.Consensus.Progress.{repair_round_ends, proposed_round_ends}
use raspen.Tests.Fixtures.{toy_codec, toy_encodes, name, vote, start, preparing, committed}
use raspen.Tests.Agreement.{commit_of}

-- Five REPAIR-COMMITs, one of them twice, with a CHECKPOINT and timer events among them.
abbrev mixed_inputs : List ReplicaInput
mixed_inputs =
    message (commit_of (name b'0'))
    ∷ event repair_view_timeout
    ∷ message (commit_of (name b'1'))
    ∷ message (commit_of (name b'1'))
    ∷ message (commit_of (name b'2'))
    ∷ message (checkpoint (name b'2') 0 0 zero_hash)
    ∷ message (commit_of (name b'3'))
    ∷ event sync_timeout
    ∷ message (commit_of (name b'4'))
    ∷ message (commit_of (name b'5'))
    ∷ []

repair_round_ends_example : Leaves 0 mixed_inputs committed
unfolding count_if HashSet.insert HashSet.contains Message-discrete ℕ_discrete
repair_round_ends_example =
    repair_round_ends (mem_laws toy_encodes) mixed_inputs committed refl refl (omega arith)
      (omega arith) (omega arith)

-- Votes of both kinds in a mixed order, with a REPAIR-HISTORY of the proposal among them.
abbrev proposed_inputs : List ReplicaInput
proposed_inputs =
    message (commit_of (name b'1'))
    ∷ message (commit_of (name b'2'))
    ∷ message (repair_history (name b'0') 0 0 5)
    ∷ message (commit_of (name b'3'))
    ∷ event repair_view_timeout
    ∷ message (commit_of (name b'4'))
    ∷ message (vote 5)
    ∷ message (commit_of (name b'5'))
    ∷ []

not_proposed : (x h : ℕ) → ◌≡◌ {A = Option ℕ} none (some h) → h ≡ x
not_proposed x h is = cc

proposed_inputs-Agree : All (InputProposes 0 0 5) proposed_inputs
proposed_inputs-Agree = (
  not_proposed 5,
  (
    not_proposed 5,
    (
      (λ h is. ground (arith, is)),
      (not_proposed 5, (tt, (not_proposed 5, (not_proposed 5, (not_proposed 5, tt))))),
    ),
  ),
)

proposed_round_ends_example : Leaves 0 proposed_inputs preparing
unfolding count_if HashSet.insert HashSet.contains Message-discrete ℕ_discrete
proposed_round_ends_example =
    proposed_round_ends (mem_laws toy_encodes) proposed_inputs preparing refl refl
      (record { all = tt }) proposed_inputs-Agree (omega arith) (omega arith) (omega arith)
      (omega arith)

-- Three operations, one of them submitted twice.
abbrev submitted_ops : List Hash
submitted_ops = zero_hash ∷ (1 ∷ []) ∷ zero_hash ∷ []

start-IsQuiet : IsQuiet MemKvStore.new 0 start
start-IsQuiet = record {
  phase_is = refl;
  in_repair_is = refl;
  syncs = refl;
  checkpoints = refl;
  timeouts = refl;
  fast = omega arith;
  byz = omega arith;
  weak = omega arith;
  store_is = refl;
  size_is = refl;
}

submit_all-Extends_example :
    (kv' : MemKvStore) × Extends (mem_laws toy_encodes) MemKvStore.new kv' 0 3
    × Returns
        (IsQuiet kv' 3)
        (run_node (delivered (submit_all Sequencer.new submitted_ops).0.sent) start).1
submit_all-Extends_example =
    submit_all-Extends (mem_laws toy_encodes) submitted_ops MemKvStore.new 0 start start-IsQuiet
      (omega arith)
