-- ===== src/Tests/Agreement.antt =====
-- Two of six nodes that end a round with one history.
use native.Mathlib.Decide.{ℕ_discrete}
use raspen.Prelude.{
  ℕ, ◌≡◌, refl, Bool, false, some, List, [], ◌∷◌, done, get_elem?, count_if, find_map, arith,
  bytes_eq, add64,
}
use raspen.Prelude.HashSet
use raspen.Types.{
  NodeId, Message, Message-discrete, repair_commit, repair_done, committed_reply, Effect, broadcast,
  speculative,
}
use raspen.Storage.MemKvStore
use raspen.Storage.MemKvStore.{MemKvStore, mem_ops}
use raspen.Consensus.Replica.{Replica}
use raspen.Consensus.FastPath.{on_speculate}
use raspen.Consensus.Checkpoint.{on_sync_threshold, on_receive_sync}
use raspen.Consensus.Alignment.{
  synthetic_from, rebuild_synthetic, collect_synthetic, on_receive_checkpoint, on_state_request,
  on_state_reply,
}
use raspen.Consensus.RepairEntry.{on_conflict, on_receive_timeout, on_proof}
use raspen.Consensus.Repair.{
  NodeId-discrete, prepare_quorum, commit_quorum, done_count, on_receive_log_msg,
  on_receive_repair_history, on_receive_repair_prepare, on_receive_repair_commit,
  on_receive_repair_done,
}
use raspen.Consensus.Dispatch.{run_blocks, process_message}
use raspen.Consensus.Node.{ReplicaInput, message, handle_input, run_node}
use raspen.Consensus.Agreement.{Broadcasts, repair_agreement}
use raspen.Consensus.Agreement.Voters.{AreFrom}
use raspen.Tests.Fixtures.{toy_codec, name, config, vote, preparing, committed}

abbrev pub commit_of : NodeId → Message
commit_of x = repair_commit x 0 0 5

abbrev commits : List Message
commits =
    commit_of (name b'0')
    ∷ commit_of (name b'1')
    ∷ commit_of (name b'2')
    ∷ commit_of (name b'3')
    ∷ commit_of (name b'4')
    ∷ []

abbrev inputs_of : NodeId → List ReplicaInput
inputs_of x =
    message (vote 5)
    ∷ message (commit_of (name b'0'))
    ∷ message (commit_of (name b'1'))
    ∷ message (commit_of (name b'2'))
    ∷ message (commit_of (name b'3'))
    ∷ message (commit_of (name b'4'))
    ∷ []

abbrev preparing_at : NodeId → Replica MemKvStore
preparing_at x = record preparing { state = record preparing.state { node_id = x } }

abbrev ended : NodeId → Replica MemKvStore
ended x = record committed {
  state = record committed.state {
    node_id = x;
    phase = speculative;
    round = 1;
    start_idx = 5;
    kv_size = 5;
    kv_store = record MemKvStore.new { entries = MemKvStore.insert_all [] (synthetic_from 0 5) };
    in_repair = false;
    proposed_history_hash = 0;
    repair_commit_msgs = commits;
  };
}

abbrev sent_by : NodeId → List Effect
sent_by x =
    broadcast (commit_of x)
    ∷ broadcast (repair_done x 0 0 5)
    ∷ broadcast (committed_reply x 0 0)
    ∷ []

round_run : (x : NodeId) → run_node (inputs_of x) (preparing_at x) ≡ (sent_by x, done (ended x))
unfolding run_node handle_input process_message run_blocks on_speculate on_sync_threshold
    on_receive_sync on_receive_checkpoint on_conflict on_receive_timeout on_proof on_state_request
    on_state_reply on_receive_log_msg on_receive_repair_history on_receive_repair_prepare
    on_receive_repair_commit on_receive_repair_done prepare_quorum commit_quorum done_count count_if
    find_map HashSet.insert HashSet.contains Message-discrete ℕ_discrete add64
    MemKvStore.rebuild_from_entries rebuild_synthetic collect_synthetic
round_run x = refl

round_end : (x : NodeId) → (run_node (inputs_of x) (preparing_at x)).1 ≡ done (ended x)
round_end x = rw (round_run x)

round_done :
    (x : NodeId)
    → get_elem? (run_node (inputs_of x) (preparing_at x)).0 1
      ≡ some (broadcast (repair_done x 0 0 5))
round_done x = rw (round_run x)

round_commit : (x : NodeId) → Broadcasts (inputs_of x) (preparing_at x) x 0 0 5
round_commit x = (0, rw (round_run x))

commits-AreFrom : AreFrom config.nodes_ordered commits
unfolding HashSet.contains NodeId-discrete ℕ_discrete
commits-AreFrom = (refl, (refl, (refl, (refl, (refl, tt)))))

-- The last node may be Byzantine.
abbrev may_lie : NodeId → Bool
may_lie x = bytes_eq x (name b'5')

few_liars : count_if may_lie config.nodes_ordered ≡ 1
unfolding count_if bytes_eq
few_liars = refl

repair_agreement_example : (◌≡◌ {A = ℕ} 0 0) × (◌≡◌ {A = ℕ} 5 5)
repair_agreement_example =
    repair_agreement config.nodes_ordered may_lie inputs_of preparing_at (name b'0') (name b'1')
      (ended (name b'0')) (ended (name b'1')) 1 1 (name b'0') (name b'1') 0 0 0 5 5
      (λ x honest. refl) (λ x honest. omega arith) (rw few_liars (omega arith))
      (round_end (name b'0')) (round_end (name b'1')) tt tt commits-AreFrom commits-AreFrom
      (λ x honest in_a. round_commit x) (λ x honest in_b. round_commit x) (round_done (name b'0'))
      (round_done (name b'1'))
