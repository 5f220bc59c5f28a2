-- ===== src/Tests/Runs.antt =====
-- The theorems of whole runs of a node, at concrete inputs.
use native.Mathlib.Decide.{ℕ_discrete}
use raspen.Prelude.{
  ℕ, ◌≡◌, refl, some, [], ◌∷◌, done, Returns, get_elem?, count_if, find_map, arith,
}
use raspen.Prelude.HashSet
use raspen.Types.{Message-discrete}
use raspen.Storage.MemKvStore.{MemKvStore, mem_ops}
use raspen.Storage.Refinement.{mem_laws}
use raspen.Consensus.Replica.{Replica}
use raspen.Consensus.FastPath.{on_speculate}
use raspen.Consensus.Checkpoint.{on_sync_threshold, on_receive_sync}
use raspen.Consensus.Alignment.{on_receive_checkpoint, on_state_request, on_state_reply}
use raspen.Consensus.RepairEntry.{on_conflict, on_receive_timeout, on_proof}
use raspen.Consensus.Repair.{
  prepare_quorum, commit_quorum, done_count, on_receive_log_msg, on_receive_repair_history,
  on_receive_repair_prepare, on_receive_repair_commit, on_receive_repair_done,
}
use raspen.Consensus.Dispatch.{run_blocks, process_message}
use raspen.Consensus.Node.{handle_input, run_node}
use raspen.Consensus.NoPanic.Sizes.{IsDense}
use raspen.Consensus.PhaseInvariant.{InRepairAgrees}
use raspen.Consensus.Backing.Evidence.{Backs}
use raspen.Consensus.Frame.{Frame}
use raspen.Consensus.CommitOnce.{commit_once}
use raspen.Consensus.Runs.{run_node-Backs, run_node-Frame, run_node-Returns}
use raspen.Tests.Fixtures.{
  toy_codec, toy_encodes, name, vote, preparing, committed, late_votes, commit_vote,
}

-- The replica after the fifth and the sixth vote.
abbrev settled : Replica MemKvStore
settled = record committed {
  state = record committed.state {
    repair_prepare_msgs = vote 1 ∷ vote 2 ∷ vote 3 ∷ vote 4 ∷ vote 5 ∷ vote 6 ∷ [];
  };
}

votes_run : run_node late_votes preparing ≡ (commit_vote ∷ [], done settled)
unfolding run_node handle_input process_message run_blocks on_speculate on_sync_threshold
    on_receive_sync on_receive_checkpoint on_conflict on_receive_timeout on_proof on_state_request
    on_state_reply on_receive_log_msg on_receive_repair_history on_receive_repair_prepare
    on_receive_repair_commit on_receive_repair_done prepare_quorum commit_quorum done_count count_if
    find_map HashSet.insert HashSet.contains Message-discrete ℕ_discrete
votes_run = refl

first_effect : get_elem? (run_node late_votes preparing).0 0 ≡ some commit_vote
first_effect = rw votes_run

last_replica : (run_node late_votes preparing).1 ≡ done settled
last_replica = rw votes_run

commit_once_example : ◌≡◌ {A = ℕ} 0 0
commit_once_example =
    commit_once late_votes preparing 0 0 (name b'0') (name b'0') 0 0 0 5 5 refl (omega arith)
      first_effect first_effect

run_node-Backs_example : Backs preparing settled (run_node late_votes preparing).0
run_node-Backs_example = run_node-Backs late_votes preparing settled last_replica

run_node-Frame_example : Frame preparing settled (run_node late_votes preparing).0
run_node-Frame_example = run_node-Frame late_votes preparing settled last_replica

preparing-IsDense : IsDense (mem_laws toy_encodes) preparing
preparing-IsDense = record {
  filled = record { entry = λ k h. elim h [ ] };
  bounded = record { proposal = omega arith; histories = tt };
}

run_node-Returns_example :
    Returns
      (λ r'. IsDense (mem_laws toy_encodes) r' × InRepairAgrees r')
      (run_node late_votes preparing).1
run_node-Returns_example =
    run_node-Returns (mem_laws toy_encodes) late_votes preparing (tt, (tt, tt)) preparing-IsDense
      refl (omega arith)
