-- ===== src/Consensus/Sequenced/Quiet.antt =====
-- A replica on the fast path that has received no SYNC, CHECKPOINT or TIMEOUT, and what
-- `process_message` of raspen/crates/consensus/src/replica.rs makes of a SPECULATE there.
use raspen.Prelude.{
  ℕ, ◌+◌, ◌<◌, ◌≡◌, refl, ap, ◌∙◌, true, false, List, [], ◌∷◌, Returns, count_if, add64,
  add64_small, u64_mod, arith, All, ◌==◌, some, if◌then◌else◌,
}
use raspen.Types.{Hash, Message, speculative, KvStoreOps}
use raspen.Storage.Contract.{KvStoreLaws}
use raspen.Consensus.Replica.{Replica, Handled}
use raspen.Consensus.FastPath.{is_speculate, speculated, on_speculate}
use raspen.Consensus.Checkpoint.{on_sync_threshold, on_receive_sync, sync_quorum}
use raspen.Consensus.Alignment.{on_receive_checkpoint, on_state_request, on_state_reply}
use raspen.Consensus.RepairEntry.{on_conflict, on_receive_timeout, on_proof, sync_total}
use raspen.Consensus.Repair.{
  on_receive_log_msg, on_receive_repair_history, on_receive_repair_prepare,
  on_receive_repair_commit, on_receive_repair_done,
}
use raspen.Consensus.Dispatch.{process_message}
use raspen.Consensus.Keeps.{Keeps, run_blocks-then, run_blocks-Keeps}
use raspen.Consensus.Speculation.{
  entry_after, next_entry, fires, handle_speculate-returns, previous_hash-chain_hash,
}
use raspen.Consensus.Log.{hash_at-put}

module _ {S : Type 0} where
  -- The replica is on the fast path, with this store and size, and nothing else to act upon.
  pub record IsQuiet (kv : S) (size : ℕ) (r : Replica S) : Type 0 where
    pub phase_is : r.state.phase ≡ speculative
    pub in_repair_is : r.state.in_repair ≡ false
    pub syncs : r.state.sync_msgs ≡ []
    pub checkpoints : r.state.chkpt_msgs ≡ []
    pub timeouts : r.state.timeout_msgs ≡ []
    pub fast : 0 < r.config.fast_quorum
    pub byz : 0 < r.config.byz_quorum
    pub weak : 0 < r.config.f_plus_1
    pub store_is : r.state.kv_store ≡ kv
    pub size_is : r.state.kv_size ≡ size

  module _ ⦃ops : KvStoreOps S⦄ (kv : S) (size : ℕ) (msg : Message)
      (is_spec : is_speculate msg ≡ true) where
    -- The blocks after that of SPECULATE.
    abbrev pub later_blocks : List (Replica S → Handled S)
    later_blocks =
        on_sync_threshold
        ∷ (λ r. on_receive_sync r msg)
        ∷ (λ r. on_receive_checkpoint r msg)
        ∷ on_conflict
        ∷ (λ r. on_receive_timeout r msg)
        ∷ (λ r. on_proof r msg)
        ∷ (λ r. on_state_request r msg)
        ∷ (λ r. on_state_reply r msg)
        ∷ (λ r. on_receive_log_msg r msg)
        ∷ (λ r. on_receive_repair_history r msg)
        ∷ (λ r. on_receive_repair_prepare r msg)
        ∷ (λ r. on_receive_repair_commit r msg)
        ∷ (λ r. on_receive_repair_done r msg)
        ∷ []

    sync-Keeps : Keeps (IsQuiet kv size) (λ r. on_receive_sync r msg)
    unfolding on_receive_sync sync_quorum count_if
    sync-Keeps r w = ground (arith, is_spec, w.syncs, w.fast)

    checkpoint-Keeps : Keeps (IsQuiet kv size) (λ r. on_receive_checkpoint r msg)
    unfolding on_receive_checkpoint count_if
    checkpoint-Keeps r w = ground (arith, is_spec, w.checkpoints, w.weak)

    conflict-Keeps : Keeps (IsQuiet kv size) on_conflict
    unfolding on_conflict sync_total count_if
    conflict-Keeps r w = ground (arith, w.syncs, w.byz)

    timeout-Keeps : Keeps (IsQuiet kv size) (λ r. on_receive_timeout r msg)
    unfolding on_receive_timeout count_if
    timeout-Keeps r w = ground (arith, is_spec, w.timeouts, w.weak)

    rest-Keeps :
        Keeps (IsQuiet kv size) on_sync_threshold
        × Keeps (IsQuiet kv size) (λ r. on_proof r msg)
        × Keeps (IsQuiet kv size) (λ r. on_state_request r msg)
        × Keeps (IsQuiet kv size) (λ r. on_state_reply r msg)
        × Keeps (IsQuiet kv size) (λ r. on_receive_log_msg r msg)
    unfolding on_sync_threshold on_proof on_state_request on_state_reply on_receive_log_msg
    rest-Keeps = (
      (λ r w. ground (arith, w.phase_is)),
      (λ r w. ground (arith, is_spec)),
      (λ r w. ground (arith, is_spec)),
      (λ r w. ground (arith, w.phase_is)),
      (λ r w. ground (arith, is_spec, w.phase_is)),
    )

    repair-Keeps :
        Keeps (IsQuiet kv size) (λ r. on_receive_repair_history r msg)
        × Keeps (IsQuiet kv size) (λ r. on_receive_repair_prepare r msg)
        × Keeps (IsQuiet kv size) (λ r. on_receive_repair_commit r msg)
        × Keeps (IsQuiet kv size) (λ r. on_receive_repair_done r msg)
    unfolding on_receive_repair_history on_receive_repair_prepare on_receive_repair_commit
        on_receive_repair_done
    repair-Keeps = (
      (λ r w. ground (arith, is_spec, w.phase_is)),
      (λ r w. ground (arith, is_spec, w.phase_is)),
      (λ r w. ground (arith, is_spec, w.phase_is)),
      (λ r w. ground (arith, is_spec, w.phase_is)),
    )

    later-Keeps : All (Keeps (IsQuiet kv size)) later_blocks
    later-Keeps =
        let (threshold, proof, request, reply, log) = rest-Keeps in
        let (history, prepare, commit, catchup) = repair-Keeps in
        (
          threshold,
          (
            sync-Keeps,
            (
              checkpoint-Keeps,
              (
                conflict-Keeps,
                (
                  timeout-Keeps,
                  (proof, (request, (reply, (log, (history, (prepare, (commit, (catchup, tt)))))))),
                ),
              ),
            ),
          ),
        )

  module _ ⦃ops : KvStoreOps S⦄ (laws : KvStoreLaws S) where
    -- The store is extended by the next entry of the chain.
    pub record Grown (kv kv' : S) (size : ℕ) : Type 0 where
      pub log :
          (j : ℕ)
          → laws.at kv' j ≡ (if size == j then some (next_entry laws kv size) else laws.at kv j)

    -- A SPECULATE that a quiet replica receives is appended, and the replica is quiet again.
    pub process_message-IsQuiet :
        (kv : S) (size : ℕ) (msg : Message) (r : Replica S)
        → is_speculate msg ≡ true
        → IsQuiet kv size r
        → size + 1 < u64_mod
        → (kv' : S) × Grown kv kv' size
          × Returns (λ x. IsQuiet kv' (size + 1) x.0) (process_message r msg)
    unfolding process_message
    process_message-IsQuiet kv size msg r is_spec w small =
        let kv0 = r.state.kv_store in
        let size0 = r.state.kv_size in
        let e = speculated kv0 size0 in
        let (kv', is, at') = laws.put_at kv0 size0 e in
        let chained : e ≡ next_entry laws kv0 size0 =
          ap (λ (h : Hash). entry_after size0 h) (previous_hash-chain_hash laws kv0 size0) in
        let appended =
          fires laws msg r is_spec w.phase_is
          ∙ handle_speculate-returns laws r kv' is (hash_at-put laws kv' kv0 size0 e at') in
        let next : IsQuiet kv' (size + 1)
            (record r { state = record r.state { kv_store = kv'; kv_size = add64 size0 1 } }) =
          record {
            phase_is = w.phase_is;
            in_repair_is = w.in_repair_is;
            syncs = w.syncs;
            checkpoints = w.checkpoints;
            timeouts = w.timeouts;
            fast = w.fast;
            byz = w.byz;
            weak = w.weak;
            store_is = refl;
            size_is = rw w.size_is (add64_small size 1 small);
          } in
        (
          kv',
          record { log = rw (← w.store_is, ← w.size_is, ← chained) at' },
          run_blocks-then (IsQuiet kv' (size + 1)) (IsQuiet kv' (size + 1))
              (λ r'. on_speculate r' msg) (later_blocks kv' (size + 1) msg is_spec) r
              (rw appended next)
              (run_blocks-Keeps (IsQuiet kv' (size + 1)) (later_blocks kv' (size + 1) msg is_spec)
                (later-Keeps kv' (size + 1) msg is_spec)),
        )
