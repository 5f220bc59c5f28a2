-- ===== src/Consensus/Recovery.antt =====
-- The logs that alignment and REPAIR rebuild (`handle_state_reply` of
-- raspen/crates/consensus/src/alignment.rs, `handle_apply_repair` of repair.rs).
use raspen.Prelude.{
  ℕ, zero, suc, ◌+◌, ◌≤◌, ◌≡◌, ◌≢◌, refl, sym, ap, ◌∙◌, none, some, List, [], ◌∷◌, false, done,
  arith, add64, add64_small, ltb, ltb-zero-suc, unwrap_or, if◌then◌else◌,
}
use raspen.Types.{
  Hash, NodeId, zero_hash, state_reply, repair_done, committed_reply, Effect, broadcast,
  speculative, aligning, KvStoreOps,
}
use raspen.Storage.Contract.{KvStoreLaws, hashed}
use raspen.Consensus.Replica.{Replica}
use raspen.Consensus.Alignment.{synthetic, vec_capacity, on_state_reply}
use raspen.Consensus.Repair.{merged_store, handle_apply_repair}
use raspen.Consensus.Log.{rebuild_synthetic-done}

module _ {S : Type 0} ⦃ops : KvStoreOps S⦄ (laws : KvStoreLaws S) where
  -- The replica is on the fast path with a log of exactly `count` synthetic entries.
  pub record Recovered (r : Replica S) (count : ℕ) : Type 0 where
    pub log :
        (j : ℕ) → laws.at r.state.kv_store j ≡ (if ltb j count then some (synthetic j) else none)
    pub size : r.state.kv_size ≡ count
    pub phase : r.state.phase ≡ speculative

  rebuilt_hash :
      (kv : S) (k : ℕ)
      → ((j : ℕ) → laws.at kv j ≡ (if ltb j (k + 1) then some (synthetic j) else none))
      → unwrap_or (ops.hash_at kv k) zero_hash ≡ laws.hash_of (synthetic k)
  rebuilt_hash kv k at' =
      let here : laws.at kv k ≡ some (synthetic k) = ground (arith, at' k) in
      ap (λ h. unwrap_or h zero_hash) (laws.hash_at_at kv k ∙ ap (hashed laws.hash_of k) here)

  -- In the phase Aligning, a STATE-REPLY whose entries fit in a `Vec` always brings the replica back to
  -- the fast path, with exactly the synthetic entries up to its index in the log, whatever the log
  -- was, with that index as its checkpoint and the hash of the entry there as the checkpoint's hash,
  -- and sends nothing. The hash that the reply carries plays no part.
  pub state_reply-Recovered :
      (r : Replica S) (from : NodeId) (chkpt_idx : ℕ) (chkpt_hash : Hash)
      → r.state.phase ≡ aligning
      → chkpt_idx + 1 ≤ vec_capacity
      → (r' : Replica S) × (on_state_reply r (state_reply from chkpt_idx chkpt_hash)
          ≡ done (r', []))
        × Recovered r' (chkpt_idx + 1)
        × (r'.state.chkpt_idx ≡ chkpt_idx)
        × (r'.state.chkpt_hash ≡ laws.hash_of (synthetic chkpt_idx))
  unfolding on_state_reply
  state_reply-Recovered r from chkpt_idx chkpt_hash in_phase fits =
      let (kv', is, log) = rebuild_synthetic-done laws r.state.kv_store (chkpt_idx + 1) fits in
      (
        record r {
          state = record r.state {
            kv_store = kv';
            phase = speculative;
            chkpt_idx = chkpt_idx;
            chkpt_hash = unwrap_or (ops.hash_at kv' chkpt_idx) zero_hash;
            kv_size = add64 chkpt_idx 1;
            start_idx = chkpt_idx;
          };
        },
        rw (in_phase, is),
        record { log = log; size = add64_small chkpt_idx 1 (omega arith); phase = refl },
        refl,
        rebuilt_hash kv' chkpt_idx log,
      )

  merged_log :
      (kv : S) (size : ℕ)
      → size ≢ 0
      → size ≤ vec_capacity
      → (kv' : S) × (merged_store kv size ≡ done kv')
        × ((j : ℕ) → laws.at kv' j ≡ (if ltb j size then some (synthetic j) else none))
  unfolding merged_store
  merged_log kv zero nonzero fits = absurd (nonzero refl)
  merged_log kv (suc k) nonzero fits =
      let (kv', is, log) = rebuild_synthetic-done laws kv (suc k) fits in
      (kv', rw (ltb-zero-suc k, is) refl, log)

  apply_repair-Recovered :
      (r : Replica S) (hist : ℕ)
      → hist ≢ 0
      → hist ≤ vec_capacity
      → (r' : Replica S) × (effects : List Effect) × (handle_apply_repair r hist
          ≡ done (r', effects))
        × Recovered r' hist
  unfolding handle_apply_repair
  apply_repair-Recovered r hist nonzero fits =
      let (kv', is, log) = merged_log r.state.kv_store hist nonzero fits in
      (
        record r {
          state = record r.state {
            kv_store = kv';
            phase = speculative;
            round = add64 r.state.round 1;
            start_idx = hist;
            kv_size = hist;
            in_repair = false;
            proposed_history_hash = 0;
          };
        },
        broadcast (repair_done r.state.node_id r.state.view r.state.round hist)
            ∷ broadcast (committed_reply r.state.node_id r.state.round r.state.kv_size)
            ∷ [],
        rw is,
        record { log = log; size = refl; phase = refl },
      )

  -- Two replicas that apply one merged history, which is not empty and whose entries fit in a `Vec`,
  -- both return, and have the same log afterwards, entry by entry and in size, whatever their logs were.
  pub apply_repair_converges :
      (a b : Replica S) (hist : ℕ)
      → hist ≢ 0
      → hist ≤ vec_capacity
      → (a' b' : Replica S) × (es fs : List Effect) × (handle_apply_repair a hist ≡ done (a', es))
        × (handle_apply_repair b hist ≡ done (b', fs))
        × ((j : ℕ) → laws.at a'.state.kv_store j ≡ laws.at b'.state.kv_store j)
        × (a'.state.kv_size ≡ b'.state.kv_size)
  apply_repair_converges a b hist nonzero fits =
      let (a', es, is_a, ra) = apply_repair-Recovered a hist nonzero fits in
      let (b', fs, is_b, rb) = apply_repair-Recovered b hist nonzero fits in
      (a', b', es, fs, is_a, is_b, (λ j. ra.log j ∙ sym (rb.log j)), ra.size ∙ sym rb.size)
