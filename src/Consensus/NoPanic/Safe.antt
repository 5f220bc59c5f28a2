-- ===== src/Consensus/NoPanic/Safe.antt =====
-- Each block of `process_message` and `handle_event` (raspen/crates/consensus/src/replica.rs), over a
-- store that keeps the contract.
use raspen.Prelude.{
  ℕ, ◌+◌, ◌≤◌, ◌≡◌, refl, Option, none, some, length, Returns, Returns-and_then, zero, suc,
  ltb-zero-suc, arith, add64,
}
use raspen.Types.{Message, state_reply, Event, KvStoreOps}
use raspen.Storage.Contract.{KvStoreLaws}
use raspen.Consensus.Replica.{Replica, Handled, fire}
use raspen.Consensus.FastPath.{on_speculate, handle_speculate, speculated}
use raspen.Consensus.Checkpoint.{on_sync_threshold, on_receive_sync, on_sync_timeout}
use raspen.Consensus.Alignment.{
  on_receive_checkpoint, on_state_request, on_state_reply, handle_state_reply, can_state_reply,
  reply_idx, vec_capacity, rebuild_synthetic,
}
use raspen.Consensus.RepairEntry.{on_conflict, on_receive_timeout, on_proof, on_chkpt_timeout}
use raspen.Consensus.Repair.{
  on_receive_log_msg, on_receive_repair_history, on_receive_repair_prepare,
  on_receive_repair_commit, on_receive_repair_done, on_repair_view_timeout, handle_apply_repair,
  merged_store, store_repair_commit, can_apply_repair, store_log_msg, can_broadcast_history,
  store_repair_history, can_repair_prepare,
}
use raspen.Consensus.Blocks.{MessageBlocks, EventBlocks}
use raspen.Consensus.Keeps.{Keeps}
use raspen.Consensus.NoPanic.Sizes.{
  Fits, IsDense, HasRoom, store_log_msg-HasRoom, proposal_fits, prepared_fits,
  store_repair_history-IsBounded,
}
use raspen.Consensus.Log.{IsFilled, put-IsFilled, rebuild-IsFilled, IsFilled-weaken, hash_at-put}

add64-le : (a b : ℕ) → add64 a b ≤ a + b
unfolding add64
add64-le a b = omega arith

reply_idx-Fits :
    (msg : Message) (chkpt_idx : ℕ)
    → Fits msg
    → reply_idx msg ≡ some chkpt_idx
    → chkpt_idx + 1 ≤ vec_capacity
reply_idx-Fits (state_reply _ idx _) chkpt_idx fits is = ground arith
reply_idx-Fits _ chkpt_idx fits is = cc

reply-Fits :
    {S : Type 0} (msg : Message) (r : Replica S) (chkpt_idx : ℕ)
    → Fits msg
    → can_state_reply r msg ≡ some chkpt_idx
    → chkpt_idx + 1 ≤ vec_capacity
unfolding can_state_reply
reply-Fits msg r chkpt_idx fits is = ground (arith, reply_idx-Fits msg chkpt_idx fits)

module _ {S : Type 0} ⦃ops : KvStoreOps S⦄ (laws : KvStoreLaws S) where
  handle_speculate-IsSafe :
      (r : Replica S)
      → IsDense laws r
      → Returns (λ x. IsDense laws x.0) (handle_speculate r r.state.kv_size)
  unfolding handle_speculate
  handle_speculate-IsSafe r d =
      let kv = r.state.kv_store in
      let size = r.state.kv_size in
      let e = speculated kv size in
      let (kv', is, at') = laws.put_at kv size e in
      rw (is, hash_at-put laws kv' kv size e at')
        (record {
          filled =
              IsFilled-weaken laws kv' (add64 size 1) (size + 1) (add64-le size 1)
                (put-IsFilled laws kv kv' size e at' d.filled);
          bounded = record { proposal = d.bounded.proposal; histories = d.bounded.histories };
        })

  module _ (msg : Message) (spare : ℕ) where
    abbrev pub IsReady : Replica S → Type 0
    IsReady r = IsDense laws r × HasRoom msg spare r

    -- From a dense log the block returns, and leaves a dense log.
    abbrev pub IsSafe : (Replica S → Handled S) → Type 0
    IsSafe = Keeps IsReady

    speculate-IsSafe : IsSafe (λ r. on_speculate r msg)
    unfolding on_speculate
    speculate-IsSafe r (d, room) = ground (arith, handle_speculate-IsSafe r d)

    handle_state_reply-IsSafe :
        (r : Replica S) (chkpt_idx : ℕ)
        → IsReady r
        → chkpt_idx + 1 ≤ vec_capacity
        → Returns (λ x. IsReady x.0) (handle_state_reply r chkpt_idx)
    unfolding handle_state_reply
    handle_state_reply-IsSafe r chkpt_idx (d, room) fits =
        let count = chkpt_idx + 1 in
        Returns-and_then (λ kv'. IsFilled laws kv' count) (λ x. IsReady x.0)
          (rebuild_synthetic r.state.kv_store count) _
          (rebuild-IsFilled laws r.state.kv_store count fits)
          λ kv' filled. (
            record {
              filled =
                  IsFilled-weaken laws kv' (add64 chkpt_idx 1) count (add64-le chkpt_idx 1) filled;
              bounded = record { proposal = d.bounded.proposal; histories = d.bounded.histories };
            },
            room,
          )

    merged_store-IsFilled :
        (kv : S) (size : ℕ)
        → size ≤ vec_capacity
        → Returns (λ kv'. IsFilled laws kv' size) (merged_store kv size)
    unfolding merged_store
    merged_store-IsFilled kv zero fits = record { entry = λ k h. elim h [ ] }
    merged_store-IsFilled kv (suc size) fits =
        rw (ltb-zero-suc size) (rebuild-IsFilled laws kv (suc size) fits)

    handle_apply_repair-IsSafe :
        (r : Replica S) (hist : ℕ)
        → IsReady r
        → hist ≤ vec_capacity
        → Returns (λ x. IsReady x.0) (handle_apply_repair r hist)
    unfolding handle_apply_repair
    handle_apply_repair-IsSafe r hist (d, room) fits =
        Returns-and_then (λ kv'. IsFilled laws kv' hist) (λ x. IsReady x.0)
          (merged_store r.state.kv_store hist) _ (merged_store-IsFilled r.state.kv_store hist fits)
          λ kv' filled. (
            record {
              filled = filled;
              bounded = record { proposal = omega arith; histories = d.bounded.histories };
            },
            room,
          )

    fire_safe :
        (guard : Option ℕ) (r : Replica S) (handler : ℕ → Handled S)
        → IsReady r
        → ((x : ℕ) → guard ≡ some x → Returns (λ y. IsReady y.0) (handler x))
        → Returns (λ y. IsReady y.0) (fire guard r handler)
    fire_safe none r handler d safe = d
    fire_safe (some x) r handler d safe = safe x refl

    applied_fits :
        (r : Replica S) (hist : ℕ)
        → IsDense laws r
        → can_apply_repair r ≡ some hist
        → hist ≤ vec_capacity
    unfolding can_apply_repair
    applied_fits r hist d is = ground (arith, d.bounded.proposal)

    store_log_msg-IsDense : (r : Replica S) → IsDense laws r → IsDense laws (store_log_msg r msg)
    unfolding store_log_msg
    store_log_msg-IsDense r d = ground (arith, d.filled, d.bounded.proposal, d.bounded.histories)

    receive_log-IsSafe : IsSafe (λ r. on_receive_log_msg r msg)
    unfolding on_receive_log_msg
    receive_log-IsSafe r (d, room) =
        let stored = store_log_msg r msg in
        let room' = store_log_msg-HasRoom msg spare r room in
        let d' = store_log_msg-IsDense r d in
        fire_safe (can_broadcast_history stored) stored _ (d', room')
          λ hist is. (
            record {
              filled = d'.filled;
              bounded = record {
                proposal = proposal_fits msg spare stored hist room' is;
                histories = d'.bounded.histories;
              };
            },
            room',
          )

    store_repair_history-IsDense :
        (r : Replica S) → Fits msg → IsReady r → IsReady (store_repair_history r msg)
    unfolding store_repair_history
    store_repair_history-IsDense r fits (d, room) =
        let bounded = store_repair_history-IsBounded msg r fits d.bounded in
        ground (arith, d.filled, bounded, room)

    receive_history-IsSafe : Fits msg → IsSafe (λ r. on_receive_repair_history r msg)
    unfolding on_receive_repair_history
    receive_history-IsSafe fits r ready =
        let stored = store_repair_history r msg in
        let (d, room) = store_repair_history-IsDense r fits ready in
        fire_safe (can_repair_prepare stored) stored _ (d, room)
          λ hist is. (
            record {
              filled = d.filled;
              bounded = record {
                proposal = prepared_fits stored hist d.bounded is;
                histories = d.bounded.histories;
              };
            },
            room,
          )

    pub message-IsSafe : Fits msg → MessageBlocks IsSafe msg
    unfolding on_sync_threshold on_receive_sync on_receive_checkpoint on_conflict on_receive_timeout
        on_proof on_state_request on_state_reply on_receive_repair_prepare on_receive_repair_commit
        on_receive_repair_done
    message-IsSafe fits = record {
      speculate = speculate-IsSafe;
      sync_threshold = λ r (d, room). ground (arith, room);
      receive_sync = λ r (d, room). ground (arith, room);
      receive_checkpoint = λ r (d, room). ground (arith, room);
      conflict = λ r (d, room). ground (arith, room);
      receive_timeout = λ r (d, room). ground (arith, room);
      proof = λ r (d, room). ground (arith, room);
      state_request = λ r (d, room). ground (arith, room);
      state_reply = λ r ready.
          fire_safe (can_state_reply r msg) r _ ready
            λ idx is. handle_state_reply-IsSafe r idx ready (reply-Fits msg r idx fits is);
      receive_log = receive_log-IsSafe;
      receive_history = receive_history-IsSafe fits;
      receive_prepare = λ r (d, room). ground (arith, room);
      receive_commit = λ r (d, room).
          let stored = store_repair_commit r msg in
          let ready : IsReady stored = ground (arith, room) in
          fire_safe (can_apply_repair stored) stored _ ready λ hist is.
            handle_apply_repair-IsSafe stored hist ready (applied_fits stored hist ready.0 is);
      receive_done = λ r (d, room). ground (arith, room);
    }

  -- A timer event leaves the LOGs.
  abbrev pub IsCalm : ℕ → Replica S → Type 0
  IsCalm spare r = IsDense laws r × (length r.state.log_msgs + spare ≤ vec_capacity)

  pub event-IsSafe : (event : Event) (spare : ℕ) → EventBlocks (Keeps (IsCalm spare)) event
  unfolding on_sync_timeout on_chkpt_timeout on_repair_view_timeout
  event-IsSafe event spare = record {
    sync_timeout = λ r (d, room). ground (arith, room);
    chkpt_timeout = λ r (d, room). ground (arith, room);
    view_timeout = λ r (d, room). ground (arith, room);
  }
