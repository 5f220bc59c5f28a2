-- ===== src/Tests/Replicas.antt =====
-- The theorems of one message or one event, at concrete inputs.
use native.Mathlib.Decide.{ℕ_discrete}
use raspen.Prelude.{
  length, ◌≤◌, ◌%◌, ◌↔◌, panic, capacity_overflow, replicate, ℕ, ◌+◌, ◌≡◌, refl, true, some, List,
  [], ◌∷◌, done, Returns, count_if, find_map, arith, add64, bytes_eq,
}
use raspen.Prelude.HashSet
use raspen.Types.{Message, Message-discrete, Effect, sync, repair_view_timeout, spec_default}
use raspen.Storage.BTreeMap
use raspen.Storage.MemKvStore
use raspen.Storage.MemKvStore.{MemKvStore, mem_ops}
use raspen.Storage.Refinement.{mem_laws}
use raspen.Consensus.Replica.{Replica, is_leader}
use raspen.Consensus.FastPath.{on_speculate}
use raspen.Consensus.Checkpoint.{
  store_sync, sync_quorum, can_form_checkpoint, handle_form_checkpoint, on_sync_threshold,
  on_receive_sync, on_sync_timeout,
}
use raspen.Consensus.Repair.{handle_apply_repair}
use raspen.Types.{aligning, state_reply, zero_hash}
use raspen.Consensus.Alignment.{synthetic, on_receive_checkpoint, on_state_request, on_state_reply}
use raspen.Consensus.RepairEntry.{
  sync_total, can_conflict_proof, on_conflict, on_receive_timeout, on_proof, on_chkpt_timeout,
}
use raspen.Consensus.Repair.{
  prepare_quorum, commit_quorum, done_count, on_receive_log_msg, on_receive_repair_history,
  on_receive_repair_prepare, on_receive_repair_commit, on_receive_repair_done,
  on_repair_view_timeout,
}
use raspen.Consensus.Dispatch.{run_blocks, process_message, handle_event}
use raspen.Consensus.NoPanic.{process_message-IsSafe}
use raspen.Consensus.NoPanic.Sizes.{IsDense}
use raspen.Consensus.Backing.Evidence.{Backs}
use raspen.Consensus.Backing.{process_message-Backs}
use raspen.Consensus.Rounds.{EndsRound, message_rounds}
use raspen.Consensus.Speculation.{Appended, speculate-Appended}
use raspen.Consensus.Equivocation.{
  repeated, one_sender_forms_checkpoint, conflict_before_checkpoint,
}
use raspen.Consensus.Recovery.{Recovered, state_reply-Recovered, apply_repair_converges}
use raspen.Consensus.Leader.{leads_in_turn}
use raspen.Consensus.Alignment.{vec_capacity}
use raspen.Consensus.NoPanic.Overflow.{huge_reply_panics}
use raspen.Consensus.Node.{message, event, run_node}
use raspen.Consensus.Repair.{NodeId-discrete}
use raspen.Prelude.HashSet.Size.{Distinct}
use raspen.Tests.Fixtures.{
  toy_codec, toy_encodes, one_entry, name, config, start, request, vote, preparing, committed,
  commit_vote, collecting, next_collecting, next_log, synced, last_sync,
}

spec_default_runs : spec_default ≡ config
unfolding spec_default
spec_default_runs = refl

-- A replica that waits for a STATE-REPLY.
abbrev lost : Replica MemKvStore
lost = record start { state = record start.state { phase = aligning } }

lost-IsDense : IsDense (mem_laws toy_encodes) lost
lost-IsDense = record {
  filled = record { entry = λ k h. elim h [ ] };
  bounded = record { proposal = omega arith; histories = tt };
}

process_message-IsSafe_example :
    Returns
      (λ x. IsDense (mem_laws toy_encodes) x.0 × (length x.0.state.log_msgs + 3 ≤ vec_capacity))
      (process_message lost (state_reply (name b'1') 2 zero_hash))
process_message-IsSafe_example =
    process_message-IsSafe (mem_laws toy_encodes) (state_reply (name b'1') 2 zero_hash) 3 lost
      (omega arith) lost-IsDense (omega arith)

huge_reply_panics_example :
    run_node (message (state_reply (name b'1') vec_capacity zero_hash) ∷ []) lost
    ≡ ([], panic capacity_overflow)
huge_reply_panics_example =
    huge_reply_panics lost (name b'1') vec_capacity zero_hash [] refl (omega arith)

fifth_vote : process_message preparing (vote 5) ≡ done (committed, commit_vote ∷ [])
unfolding process_message run_blocks on_speculate on_sync_threshold on_receive_sync
    on_receive_checkpoint on_conflict on_receive_timeout on_proof on_state_request on_state_reply
    on_receive_log_msg on_receive_repair_history on_receive_repair_prepare on_receive_repair_commit
    on_receive_repair_done prepare_quorum commit_quorum done_count count_if find_map HashSet.insert
    HashSet.contains Message-discrete ℕ_discrete
fifth_vote = refl

view_times_out : handle_event collecting repair_view_timeout ≡ done (next_collecting, next_log ∷ [])
unfolding handle_event run_blocks on_sync_timeout on_chkpt_timeout on_repair_view_timeout
    MemKvStore.top_hash BTreeMap.next_back add64
view_times_out = refl

process_message-Backs_example : Backs preparing committed (commit_vote ∷ [])
process_message-Backs_example =
    process_message-Backs (vote 5) preparing committed (commit_vote ∷ []) fifth_vote

message_rounds_example : EndsRound preparing committed (commit_vote ∷ [])
message_rounds_example =
    message_rounds (vote 5) preparing committed (commit_vote ∷ []) fifth_vote refl (omega arith)

speculate-Appended_example :
    (r' : Replica MemKvStore) × (effects : List Effect) × (on_speculate start request
      ≡ done (r', effects))
    × Appended (mem_laws toy_encodes) start r' effects
speculate-Appended_example =
    speculate-Appended (mem_laws toy_encodes) request start refl refl (omega arith)

-- Four SYNCs of one sender, which differ in `eta_star`.
abbrev flooded : Replica MemKvStore
flooded = record synced {
  state = record synced.state {
    sync_msgs = repeated (name b'5') 0 0 (MemKvStore.top_hash one_entry) 4;
  };
}

abbrev fifth_sync : Message
fifth_sync = sync (name b'5') 0 0 (MemKvStore.top_hash one_entry) 4

one_sender_forms_checkpoint_example :
    on_receive_sync flooded fifth_sync
    ≡ done (handle_form_checkpoint (store_sync flooded fifth_sync) 0)
one_sender_forms_checkpoint_example =
    one_sender_forms_checkpoint flooded (name b'5') 4 refl (λ e. omega (arith, e)) refl refl

conflict_before_checkpoint_example :
    (can_conflict_proof synced ≡ some 0)
    × (can_form_checkpoint (store_sync synced last_sync) ≡ some 0)
unfolding sync_total sync_quorum count_if HashSet.contains Message-discrete ℕ_discrete
    MemKvStore.top_hash BTreeMap.next_back bytes_eq
conflict_before_checkpoint_example =
    conflict_before_checkpoint synced last_sync refl (λ e. omega (arith, e)) refl (omega arith) refl
      refl refl

config-Distinct : Distinct NodeId-discrete config.nodes_ordered
unfolding HashSet.contains NodeId-discrete ℕ_discrete
config-Distinct = (refl, (refl, (refl, (refl, (refl, (refl, tt))))))

leads_in_turn_example :
    (r' : Replica MemKvStore) × ((run_node (replicate 6 (event repair_view_timeout)) collecting).1
      ≡ done r')
    × ((is_leader r' ≡ true) ↔ ((collecting.state.view + 6) % length config.nodes_ordered ≡ 0))
leads_in_turn_example = leads_in_turn 6 collecting 0 refl config-Distinct refl (omega arith)

state_reply-Recovered_example :
    (r' : Replica MemKvStore) × (on_state_reply lost (state_reply (name b'1') 2 zero_hash)
      ≡ done (r', []))
    × Recovered (mem_laws toy_encodes) r' (2 + 1)
    × (r'.state.chkpt_idx ≡ 2)
    × (r'.state.chkpt_hash ≡ (mem_laws toy_encodes).hash_of (synthetic 2))
state_reply-Recovered_example =
    state_reply-Recovered (mem_laws toy_encodes) lost (name b'1') 2 zero_hash refl (omega arith)

apply_repair_converges_example :
    (a' b' : Replica MemKvStore) × (es fs : List Effect) × (handle_apply_repair committed 5
      ≡ done (a', es))
    × (handle_apply_repair synced 5 ≡ done (b', fs))
    × ((j : ℕ)
        → (mem_laws toy_encodes).at a'.state.kv_store j
          ≡ (mem_laws toy_encodes).at b'.state.kv_store j)
    × (a'.state.kv_size ≡ b'.state.kv_size)
apply_repair_converges_example =
    apply_repair_converges (mem_laws toy_encodes) committed synced 5 (λ e. omega (arith, e))
      (omega arith)
