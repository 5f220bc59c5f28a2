-- ===== src/Tests/Checkpointed.antt =====
-- A node alone forms a checkpoint, from its start to its CHECKPOINT.
use native.Mathlib.Decide.{ℕ_discrete}
use raspen.Prelude.{
  ℕ, ◌≡◌, refl, inl, inr, none, some, ap, sym, ◌∙◌, List, [], ◌∷◌, done, count_if, find_map,
  filter_map, any, arith, bytes_eq, add64,
}
use raspen.Prelude.HashSet
use raspen.Types.{NodeId, Message, Message-discrete, zero_hash, broadcast}
use raspen.Storage.BTreeMap
use raspen.Storage.MemKvStore
use raspen.Storage.MemKvStore.{MemKvStore, mem_ops}
use raspen.Consensus.Replica.{Replica, is_leader}
use raspen.Consensus.FastPath.{previous_hash, on_speculate}
use raspen.Consensus.Checkpoint.{sync_quorum, on_sync_threshold, on_receive_sync}
use raspen.Consensus.Alignment.{on_receive_checkpoint, on_state_request, on_state_reply}
use raspen.Consensus.RepairEntry.{sync_total, on_conflict, on_receive_timeout, on_proof}
use raspen.Consensus.Repair.{
  NodeId-discrete, log_senders, prepare_quorum, commit_quorum, done_count, on_receive_log_msg,
  on_receive_repair_history, on_receive_repair_prepare, on_receive_repair_commit,
  on_receive_repair_done,
}
use raspen.Consensus.Dispatch.{run_blocks, process_message}
use raspen.Consensus.Node.{message, handle_input}
use raspen.Spec.Steps.{In}
use raspen.Spec.System.{apply_effects}
use raspen.Cluster.{Cluster, started, ClusterSteps, handles, at_rest, then_handles}
use raspen.Cluster.Signed.{signer}
use raspen.Cluster.Agreement.{IsAuthentic}
use raspen.Prelude.{All}
use raspen.Spec.Senders.{sync_sender}
use raspen.Cluster.Counts.{OneEach}
use raspen.Cluster.Held.{All-In}
use raspen.Cluster.Checkpoints.{SyncsFrom, checkpoint_agreement}
use raspen.Types.{Hash, sync, checkpoint, speculate, spec_reply, KvEntry}
use raspen.Tests.Fixtures.{toy_codec}
use raspen.Tests.Rounds.{me, alone, no_events, empty_store, r0, after, nobody}

abbrev request : Message
request = speculate (115 ∷ []) 0 zero_hash 0

abbrev at_first : NodeId → List Message
at_first p = request ∷ []

abbrev entry : KvEntry
entry = record { op_hash = 0; result = []; prev_hash = zero_hash }

abbrev own_sync : Message
own_sync = sync me 0 0 zero_hash 0

abbrev reply : Message
reply = spec_reply me 0 0 zero_hash

abbrev formed : Message
formed = checkpoint me 0 0 zero_hash

abbrev s1 : Replica MemKvStore
s1 = record r0 {
  state = record r0.state {
    kv_size = 1;
    kv_store = record MemKvStore.new { entries = (0, entry) ∷ [] };
  };
}

abbrev s2 : Replica MemKvStore
s2 = record s1 { state = record s1.state { chkpt_hash = zero_hash; sync_msgs = own_sync ∷ [] } }

abbrev c0 : Cluster MemKvStore
c0 = started alone empty_store at_first

abbrev c1 : Cluster MemKvStore
c1 = after c0 s1 (broadcast reply ∷ broadcast own_sync ∷ [])

abbrev c2 : Cluster MemKvStore
c2 = after c1 s2 (broadcast own_sync ∷ broadcast formed ∷ [])

step1 :
    handle_input (c0.replicas me) (message request)
    ≡ done (s1, broadcast reply ∷ broadcast own_sync ∷ [])
unfolding handle_input process_message run_blocks on_speculate on_sync_threshold on_receive_sync
    on_receive_checkpoint on_conflict on_receive_timeout on_proof on_state_request on_state_reply
    on_receive_log_msg on_receive_repair_history on_receive_repair_prepare on_receive_repair_commit
    on_receive_repair_done prepare_quorum commit_quorum done_count log_senders is_leader sync_quorum
    count_if find_map filter_map any HashSet.insert HashSet.contains HashSet.collect
    Message-discrete ℕ_discrete add64 NodeId-discrete bytes_eq apply_effects MemKvStore.top_hash
    BTreeMap.next_back MemKvStore.rebuild_from_entries MemKvStore.put MemKvStore.hash_at
    BTreeMap.get BTreeMap.insert MemKvStore.entry_hash sync_total previous_hash
step1 = refl

step2 :
    handle_input (c1.replicas me) (message own_sync)
    ≡ done (s2, broadcast own_sync ∷ broadcast formed ∷ [])
unfolding handle_input process_message run_blocks on_speculate on_sync_threshold on_receive_sync
    on_receive_checkpoint on_conflict on_receive_timeout on_proof on_state_request on_state_reply
    on_receive_log_msg on_receive_repair_history on_receive_repair_prepare on_receive_repair_commit
    on_receive_repair_done prepare_quorum commit_quorum done_count log_senders is_leader sync_quorum
    count_if find_map filter_map any HashSet.insert HashSet.contains HashSet.collect
    Message-discrete ℕ_discrete add64 NodeId-discrete bytes_eq apply_effects MemKvStore.top_hash
    BTreeMap.next_back MemKvStore.rebuild_from_entries sync_total
step2 = refl

stands2 : In (c1.messages me) own_sync
unfolding apply_effects
stands2 = inl refl

abbrev synced : ClusterSteps no_events c0 c2
synced =
    then_handles
      (handles me (message request) s1 (broadcast reply ∷ broadcast own_sync ∷ []) (inl refl) step1)
      (then_handles
        (handles me (message own_sync) s2 (broadcast own_sync ∷ broadcast formed ∷ []) stands2
          step2)
        at_rest)

nothing_signed : IsAuthentic at_first nobody
nothing_signed p m x (inl same) is = let never : none ≡ some x = ap signer same ∙ is in cc
nothing_signed p m x (inr none_left) is = absurd none_left

-- The only SYNC is that of the node.
own_only :
    All
      (λ m. (x : NodeId) → sync_sender 0 0 m ≡ some x → (m ≡ own_sync) × (x ≡ me))
      (c2.messages me)
unfolding apply_effects
own_only = (
  (λ x is. cc),
  (
    (λ x is. (refl, ground arith)),
    ((λ x is. (refl, ground arith)), ((λ x is. cc), ((λ x is. cc), tt))),
  ),
)

own_sync_only :
    (m : Message) (x : NodeId)
    → In (c2.messages me) m
    → sync_sender 0 0 m ≡ some x
    → (m ≡ own_sync) × (x ≡ me)
own_sync_only m x here is =
    All-In (λ y. (z : NodeId) → sync_sender 0 0 y ≡ some z → (y ≡ own_sync) × (z ≡ me))
      (c2.messages me) m own_only here x is

one_sync : OneEach (sync_sender 0 0) (c2.messages me)
one_sync m m' x here here' is is' =
    (own_sync_only m x here is).0 ∙ sym (own_sync_only m' x here' is').0

from_me : SyncsFrom 0 0 (me ∷ []) (c2.messages me)
unfolding HashSet.contains NodeId-discrete ℕ_discrete
from_me m x here is = rw (own_sync_only m x here is).1 refl

formed_stands : In (c2.messages me) formed
unfolding apply_effects
formed_stands = inl refl

hash_of : Message → Hash
hash_of (sync _ _ _ h _) = h
hash_of _ = zero_hash

same_hash :
    (x : NodeId) (h : Hash) (eta : ℕ) → In (c2.messages me) (sync x 0 0 h eta) → h ≡ zero_hash
unfolding hash_of
same_hash x h eta here = ap hash_of (own_sync_only (sync x 0 0 h eta) x here refl).0

checkpoint_agreement_example : ◌≡◌ {A = Hash} zero_hash zero_hash
unfolding count_if HashSet.contains
checkpoint_agreement_example =
    checkpoint_agreement alone no_events empty_store at_first nobody (me ∷ []) c2 synced me me me me
      0 0 zero_hash zero_hash nothing_signed refl refl (refl, tt) from_me from_me one_sync one_sync
      (λ x h h' eta eta' honest here here'.
        same_hash x h eta here ∙ sym (same_hash x h' eta' here'))
      (omega arith) formed_stands formed_stands
