-- ===== src/Tests/Rounds.antt =====
-- A node alone goes through a round of REPAIR, from its start to its REPAIR-DONE.
use native.Mathlib.Decide.{ℕ_discrete}
use raspen.Prelude.{
  ℕ, ◌≡◌, refl, Bool, true, false, inl, inr, none, some, ap, ◌∙◌, List, [], ◌∷◌, done, count_if,
  find_map, filter_map, any, arith, bytes_eq, add64,
}
use raspen.Prelude.HashSet
use raspen.Types.{
  NodeId, Message, Message-discrete, zero_hash, timeout_proof, log_msg, repair_history,
  repair_prepare, repair_commit, repair_done, committed_reply, Effect, broadcast, Event, Config,
  speculative, collecting_logs, prepare_phase, commit_phase,
}
use raspen.Storage.BTreeMap
use raspen.Storage.MemKvStore
use raspen.Storage.MemKvStore.{MemKvStore, mem_ops}
use raspen.Consensus.Replica.{Replica, initial, is_leader}
use raspen.Consensus.FastPath.{on_speculate}
use raspen.Consensus.Checkpoint.{sync_quorum, on_sync_threshold, on_receive_sync}
use raspen.Consensus.Alignment.{
  synthetic_from, rebuild_synthetic, collect_synthetic, on_receive_checkpoint, on_state_request,
  on_state_reply,
}
use raspen.Consensus.RepairEntry.{on_conflict, on_receive_timeout, on_proof}
use raspen.Consensus.Repair.{
  NodeId-discrete, log_senders, prepare_quorum, commit_quorum, done_count, on_receive_log_msg,
  on_receive_repair_history, on_receive_repair_prepare, on_receive_repair_commit,
  on_receive_repair_done,
}
use raspen.Consensus.Dispatch.{run_blocks, process_message}
use raspen.Consensus.Node.{message, handle_input}
use raspen.Consensus.Agreement.Voters.{AreFrom}
use raspen.Spec.Steps.{In}
use raspen.Spec.System.{update, apply_effects}
use raspen.Cluster.{Cluster, started, ClusterSteps, steps_count, handles, at_rest, then_handles}
use raspen.Cluster.Signed.{signer}
use raspen.Cluster.Agreement.{IsAuthentic, cluster_agreement}
use raspen.Tests.Fixtures.{toy_codec, name}

abbrev pub me : NodeId
me = name b'0'

abbrev pub alone : Config
alone = record {
  n = 1;
  f = 0;
  p = 0;
  fast_quorum = 1;
  byz_quorum = 1;
  f_plus_1 = 1;
  nodes_ordered = me ∷ [];
}

abbrev pub no_events : NodeId → List Event
no_events p = []

abbrev pub empty_store : NodeId → MemKvStore
empty_store p = MemKvStore.new

-- A proof, which nobody signs, stands there at first.
abbrev proof : Message
proof = timeout_proof 0 0

abbrev at_first : NodeId → List Message
at_first p = proof ∷ []

abbrev own_log : Message
own_log = log_msg me 0 0 zero_hash

abbrev history : Message
history = repair_history me 0 0 1

abbrev prepare : Message
prepare = repair_prepare me 0 0 1

abbrev commit : Message
commit = repair_commit me 0 0 1

abbrev finish : Message
finish = repair_done me 0 0 1

abbrev pub r0 : Replica MemKvStore
r0 = initial alone me MemKvStore.new

abbrev r1 : Replica MemKvStore
r1 = record r0 { state = record r0.state { phase = collecting_logs; in_repair = true } }

abbrev r2 : Replica MemKvStore
r2 = record r1 {
  state = record r1.state {
    phase = prepare_phase;
    proposed_history_hash = 1;
    log_msgs = own_log ∷ [];
  };
}

abbrev r3 : Replica MemKvStore
r3 = record r2 { state = record r2.state { repair_history_msgs = history ∷ [] } }

abbrev r4 : Replica MemKvStore
r4 = record r3 {
  state = record r3.state { phase = commit_phase; repair_prepare_msgs = prepare ∷ [] };
}

abbrev r5 : Replica MemKvStore
r5 = record r4 {
  state = record r4.state {
    phase = speculative;
    round = 1;
    start_idx = 1;
    kv_size = 1;
    kv_store = record MemKvStore.new { entries = MemKvStore.insert_all [] (synthetic_from 0 1) };
    in_repair = false;
    proposed_history_hash = 0;
    repair_commit_msgs = commit ∷ [];
  };
}

abbrev pub after : Cluster MemKvStore → Replica MemKvStore → List Effect → Cluster MemKvStore
after cl r effects = record {
  replicas = update me r cl.replicas;
  messages = apply_effects effects cl.messages;
}

abbrev c0 : Cluster MemKvStore
c0 = started alone empty_store at_first

abbrev c1 : Cluster MemKvStore
c1 = after c0 r1 (broadcast own_log ∷ [])

step1 : handle_input (c0.replicas me) (message proof) ≡ done (r1, broadcast own_log ∷ [])
unfolding handle_input process_message run_blocks on_speculate on_sync_threshold on_receive_sync
    on_receive_checkpoint on_conflict on_receive_timeout on_proof on_state_request on_state_reply
    on_receive_log_msg on_receive_repair_history on_receive_repair_prepare on_receive_repair_commit
    on_receive_repair_done prepare_quorum commit_quorum done_count log_senders is_leader sync_quorum
    count_if find_map filter_map any HashSet.insert HashSet.contains HashSet.collect
    Message-discrete ℕ_discrete add64 NodeId-discrete bytes_eq apply_effects MemKvStore.top_hash
    BTreeMap.next_back MemKvStore.rebuild_from_entries rebuild_synthetic collect_synthetic
step1 = refl

stands1 : In (c0.messages me) proof
unfolding apply_effects
stands1 = inl refl

abbrev c2 : Cluster MemKvStore
c2 = after c1 r2 (broadcast history ∷ [])

step2 : handle_input (c1.replicas me) (message own_log) ≡ done (r2, broadcast history ∷ [])
unfolding handle_input process_message run_blocks on_speculate on_sync_threshold on_receive_sync
    on_receive_checkpoint on_conflict on_receive_timeout on_proof on_state_request on_state_reply
    on_receive_log_msg on_receive_repair_history on_receive_repair_prepare on_receive_repair_commit
    on_receive_repair_done prepare_quorum commit_quorum done_count log_senders is_leader sync_quorum
    count_if find_map filter_map any HashSet.insert HashSet.contains HashSet.collect
    Message-discrete ℕ_discrete add64 NodeId-discrete bytes_eq apply_effects MemKvStore.top_hash
    BTreeMap.next_back MemKvStore.rebuild_from_entries rebuild_synthetic collect_synthetic
step2 = refl

stands2 : In (c1.messages me) own_log
unfolding apply_effects
stands2 = inl refl

abbrev c3 : Cluster MemKvStore
c3 = after c2 r3 (broadcast prepare ∷ [])

step3 : handle_input (c2.replicas me) (message history) ≡ done (r3, broadcast prepare ∷ [])
unfolding handle_input process_message run_blocks on_speculate on_sync_threshold on_receive_sync
    on_receive_checkpoint on_conflict on_receive_timeout on_proof on_state_request on_state_reply
    on_receive_log_msg on_receive_repair_history on_receive_repair_prepare on_receive_repair_commit
    on_receive_repair_done prepare_quorum commit_quorum done_count log_senders is_leader sync_quorum
    count_if find_map filter_map any HashSet.insert HashSet.contains HashSet.collect
    Message-discrete ℕ_discrete add64 NodeId-discrete bytes_eq apply_effects MemKvStore.top_hash
    BTreeMap.next_back MemKvStore.rebuild_from_entries rebuild_synthetic collect_synthetic
step3 = refl

stands3 : In (c2.messages me) history
unfolding apply_effects
stands3 = inl refl

abbrev c4 : Cluster MemKvStore
c4 = after c3 r4 (broadcast prepare ∷ broadcast commit ∷ [])

step4 :
    handle_input (c3.replicas me) (message prepare)
    ≡ done (r4, broadcast prepare ∷ broadcast commit ∷ [])
unfolding handle_input process_message run_blocks on_speculate on_sync_threshold on_receive_sync
    on_receive_checkpoint on_conflict on_receive_timeout on_proof on_state_request on_state_reply
    on_receive_log_msg on_receive_repair_history on_receive_repair_prepare on_receive_repair_commit
    on_receive_repair_done prepare_quorum commit_quorum done_count log_senders is_leader sync_quorum
    count_if find_map filter_map any HashSet.insert HashSet.contains HashSet.collect
    Message-discrete ℕ_discrete add64 NodeId-discrete bytes_eq apply_effects MemKvStore.top_hash
    BTreeMap.next_back MemKvStore.rebuild_from_entries rebuild_synthetic collect_synthetic
step4 = refl

stands4 : In (c3.messages me) prepare
unfolding apply_effects
stands4 = inl refl

abbrev c5 : Cluster MemKvStore
c5 = after c4 r5 (broadcast finish ∷ broadcast (committed_reply me 0 0) ∷ [])

step5 :
    handle_input (c4.replicas me) (message commit)
    ≡ done (r5, broadcast finish ∷ broadcast (committed_reply me 0 0) ∷ [])
unfolding handle_input process_message run_blocks on_speculate on_sync_threshold on_receive_sync
    on_receive_checkpoint on_conflict on_receive_timeout on_proof on_state_request on_state_reply
    on_receive_log_msg on_receive_repair_history on_receive_repair_prepare on_receive_repair_commit
    on_receive_repair_done prepare_quorum commit_quorum done_count log_senders is_leader sync_quorum
    count_if find_map filter_map any HashSet.insert HashSet.contains HashSet.collect
    Message-discrete ℕ_discrete add64 NodeId-discrete bytes_eq apply_effects MemKvStore.top_hash
    BTreeMap.next_back MemKvStore.rebuild_from_entries rebuild_synthetic collect_synthetic
step5 = refl

stands5 : In (c4.messages me) commit
unfolding apply_effects
stands5 = inl refl

abbrev round : ClusterSteps no_events c0 c5
round = then_handles (handles me (message proof) r1 (broadcast own_log ∷ []) stands1 step1) (
    then_handles (handles me (message own_log) r2 (broadcast history ∷ []) stands2 step2) (
      then_handles (handles me (message history) r3 (broadcast prepare ∷ []) stands3 step3) (
        then_handles
          (handles me (message prepare) r4 (broadcast prepare ∷ broadcast commit ∷ []) stands4
            step4)
          (then_handles
            (handles me (message commit) r5
              (broadcast finish ∷ broadcast (committed_reply me 0 0) ∷ []) stands5 step5)
            (at_rest)))))

abbrev pub nobody : NodeId → Bool
nobody x = false

nothing_signed : IsAuthentic at_first nobody
nothing_signed p m x (inl same) is = let never : none ≡ some x = ap signer same ∙ is in cc
nothing_signed p m x (inr none_left) is = absurd none_left

commits-AreFrom : AreFrom (me ∷ []) (c5.messages me)
unfolding apply_effects HashSet.contains NodeId-discrete ℕ_discrete
commits-AreFrom = (tt, (tt, (refl, (tt, (tt, (tt, (tt, (tt, tt))))))))

finish_stands : In (c5.messages me) finish
unfolding apply_effects
finish_stands = inr (inl refl)

cluster_agreement_example : (◌≡◌ {A = ℕ} 0 0) × (◌≡◌ {A = ℕ} 1 1)
unfolding apply_effects count_if steps_count
cluster_agreement_example =
    cluster_agreement alone no_events empty_store at_first nobody (me ∷ []) c5 round me me me me 0 0
      0 1 1 nothing_signed refl refl commits-AreFrom commits-AreFrom (omega arith) (omega arith)
      finish_stands finish_stands
