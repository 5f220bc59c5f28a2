-- ===== src/Consensus/Equivocation.antt =====
-- What the checkpoint rules count
-- (raspen/crates/consensus/src/checkpoint.rs and repair_entry.rs).
use raspen.Prelude.{
  ℕ, zero, suc, ◌-◌, ◌≤◌, ◌<◌, ◌≡◌, ◌≢◌, refl, true, false, some, List, [], done, arith, count_if,
  bytes_eq_refl, ap, ◌∙◌,
}
use raspen.Prelude.HashSet
use raspen.Prelude.HashSet.{contains-insert_ne, count_if-insert_new}
use raspen.Types.{NodeId, Message, Message-discrete, sync, Hash, KvStoreOps, speculative}
use raspen.Consensus.Replica.{Replica}
use raspen.Consensus.Checkpoint.{
  sync_matches, sync_quorum, store_sync, can_form_checkpoint, handle_form_checkpoint,
  on_receive_sync,
}
use raspen.Consensus.RepairEntry.{sync_total, can_conflict_proof}

-- SYNCs of one sender that differ in `eta_star` only.
abbrev pub repeated : (from : NodeId) (round log_idx : ℕ) (log_hash : Hash) → ℕ → List Message
repeated from round log_idx log_hash zero = []
repeated from round log_idx log_hash (suc k) =
    HashSet.insert Message-discrete (sync from round log_idx log_hash k)
      (repeated from round log_idx log_hash k)

sync_ne :
    (from : NodeId) (round log_idx : ℕ) (log_hash : Hash) (j k : ℕ)
    → j < k
    → sync from round log_idx log_hash k ≢ sync from round log_idx log_hash j
sync_ne from round log_idx log_hash j k h = ground arith

repeated_new :
    (from : NodeId) (round log_idx : ℕ) (log_hash : Hash) (j k : ℕ)
    → j ≤ k
    → HashSet.contains Message-discrete
        (sync from round log_idx log_hash k)
        (repeated from round log_idx log_hash j)
      ≡ false
unfolding HashSet.contains
repeated_new from round log_idx log_hash zero k h = refl
repeated_new from round log_idx log_hash (suc j) k h =
    contains-insert_ne Message-discrete (sync from round log_idx log_hash k)
      (sync from round log_idx log_hash j) (repeated from round log_idx log_hash j)
      (sync_ne from round log_idx log_hash j k (omega arith))
      (repeated_new from round log_idx log_hash j k (omega arith))

sync_matches_self :
    (from : NodeId) (round log_idx : ℕ) (log_hash : Hash) (eta : ℕ)
    → sync_matches round log_idx log_hash (sync from round log_idx log_hash eta) ≡ true
sync_matches_self from round log_idx log_hash eta = ground (arith, bytes_eq_refl log_hash)

count_if-repeated :
    (from : NodeId) (round log_idx : ℕ) (log_hash : Hash) (k : ℕ)
    → count_if (sync_matches round log_idx log_hash) (repeated from round log_idx log_hash k) ≡ k
unfolding count_if
count_if-repeated from round log_idx log_hash zero = refl
count_if-repeated from round log_idx log_hash (suc k) =
    count_if-insert_new Message-discrete (sync_matches round log_idx log_hash)
      (sync from round log_idx log_hash k) (repeated from round log_idx log_hash k)
      (repeated_new from round log_idx log_hash k k (omega arith))
      (sync_matches_self from round log_idx log_hash k)
    ∙ ap suc (count_if-repeated from round log_idx log_hash k)

module _ {S : Type 0} ⦃ops : KvStoreOps S⦄ where
  -- One node alone makes a checkpoint: a replica in the phase Speculative with a log that is not
  -- empty, and whose SYNCs are `fast_quorum - 1` of one sender that differ in `eta_star` only, forms
  -- the checkpoint of its top entry on the next SYNC of the same sender.
  pub one_sender_forms_checkpoint :
      (r : Replica S) (from : NodeId) (k : ℕ)
      → r.state.phase ≡ speculative
      → r.state.kv_size ≢ 0
      → r.config.fast_quorum ≡ suc k
      → r.state.sync_msgs
        ≡ repeated from r.state.round (r.state.kv_size - 1) (ops.top_hash r.state.kv_store) k
      → let msg = sync from r.state.round (r.state.kv_size - 1) (ops.top_hash r.state.kv_store) k in
        on_receive_sync r msg
        ≡ done (handle_form_checkpoint (store_sync r msg) (r.state.kv_size - 1))
  unfolding on_receive_sync sync_quorum
  one_sender_forms_checkpoint r from k in_phase log quorum held = ground (
    arith,
    count_if-repeated from r.state.round (r.state.kv_size - 1) (ops.top_hash r.state.kv_store)
        (suc k),
  )

  -- A CONFLICT-PROOF may come too early: with one matching SYNC short of the fast quorum, and a
  -- Byzantine quorum of SYNCs in all, the replica declares the checkpoint impossible, while any new
  -- matching SYNC would let it form that checkpoint.
  pub conflict_before_checkpoint :
      (r : Replica S) (msg : Message)
      → r.state.phase ≡ speculative
      → r.state.kv_size ≢ 0
      → r.state.in_repair ≡ false
      → r.config.byz_quorum ≤ sync_total r
      → r.config.fast_quorum ≡ suc (sync_quorum r)
      → sync_matches r.state.round (r.state.kv_size - 1) (ops.top_hash r.state.kv_store) msg ≡ true
      → HashSet.contains Message-discrete msg r.state.sync_msgs ≡ false
      → (can_conflict_proof r ≡ some (r.state.kv_size - 1))
        × (can_form_checkpoint (store_sync r msg) ≡ some (r.state.kv_size - 1))
  unfolding can_conflict_proof can_form_checkpoint store_sync sync_quorum
  conflict_before_checkpoint r (sync from round idx hash eta) in_phase log out total consist matches
        new =
      let top = ops.top_hash r.state.kv_store in
      ground (
        arith,
        count_if-insert_new Message-discrete (sync_matches r.state.round (r.state.kv_size - 1) top)
            (sync from round idx hash eta) r.state.sync_msgs new matches,
      )
  conflict_before_checkpoint r _ in_phase log out total consist matches new = cc
