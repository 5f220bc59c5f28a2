-- ===== src/Consensus/Alignment.antt =====
-- raspen/crates/consensus/src/alignment.rs: divergence, state requests and state replies.
use raspen.Prelude.{
  ℕ, zero, suc, ◌%◌, ◌+◌, Bool, true, false, not, ◌&&◌, Option, none, some, List, [], ◌∷◌, done,
  panic, Outcome, capacity_overflow, expect, and_then, unwrap_or, count_if, replicate, leb, ◌==◌,
  add64, if◌then◌else◌,
}
use raspen.Prelude.HashSet
use raspen.Types.{
  NodeId, zero_hash, Message, Message-discrete, checkpoint, state_request, state_reply, Effect,
  broadcast, send, phase_eq, speculative, aligning, KvEntry, KvStoreOps,
}
use raspen.Consensus.Replica.{Replica, Handled, fire}

abbrev pub is_checkpoint : Message → Bool
is_checkpoint (checkpoint _ _ _ _) = true
is_checkpoint _ = false

-- A CHECKPOINT for this round and index, whatever its hash.
abbrev pub checkpoint_matches : ℕ → ℕ → Message → Bool
checkpoint_matches round log_idx (checkpoint _ r li _) = r == round && li == log_idx
checkpoint_matches _ _ _ = false

unfoldable pub can_state_request : Message → Option NodeId
can_state_request (state_request from _) = some from
can_state_request _ = none

-- The entry that a rebuild writes at `k`: `KvEntry { op_hash: k, result: vec![], prev_hash: [k as u8; 32] }`.
abbrev pub synthetic : ℕ → KvEntry
synthetic k = record { op_hash = k; result = []; prev_hash = replicate 32 (k % 256) }

-- `(0..count).map(|k| (k, synthetic entry))`, from `start` on.
unfoldable pub synthetic_from : (start count : ℕ) → List (ℕ × KvEntry)
synthetic_from start zero = []
synthetic_from start (suc count) = (start, synthetic start) ∷ synthetic_from (start + 1) count

-- The most elements that a `Vec<(u64, KvEntry)>` can have: each takes 72 bytes, and all of them at
-- most `isize::MAX`, which is 2^63 - 1.
abbrev pub vec_capacity : ℕ
vec_capacity = 128102389400760775

-- `collect()`, which panics beyond that (`capacity overflow`).
unfoldable pub collect_synthetic : ℕ → Outcome (List (ℕ × KvEntry))
collect_synthetic count =
    if leb count vec_capacity then done (synthetic_from 0 count) else panic capacity_overflow

abbrev pub reply_idx : Message → Option ℕ
reply_idx (state_reply _ chkpt_idx _) = some chkpt_idx
reply_idx _ = none

module _ {S : Type 0} where
  unfoldable pub can_enter_align : Replica S → Option ℕ
  can_enter_align r =
      if not (phase_eq r.state.phase speculative)
      then none
      else if leb r.config.f_plus_1
          (count_if (checkpoint_matches r.state.round r.state.chkpt_idx) r.state.chkpt_msgs)
      then some r.state.chkpt_idx
      else none

  unfoldable pub handle_enter_align : Replica S → ℕ → Replica S × List Effect
  handle_enter_align r chkpt_idx = (
    record r { state = record r.state { phase = aligning } },
    broadcast (state_request r.state.node_id chkpt_idx) ∷ [],
  )

  -- `chkpt_msgs.insert(msg)` for a CHECKPOINT.
  unfoldable pub store_checkpoint : Replica S → Message → Replica S
  store_checkpoint r msg =
      if is_checkpoint msg
      then record r {
        state = record r.state {
          chkpt_msgs = HashSet.insert Message-discrete msg r.state.chkpt_msgs;
        };
      }
      else r

  unfoldable pub on_receive_checkpoint : Replica S → Message → Handled S
  unfolding store_checkpoint can_enter_align handle_enter_align
  on_receive_checkpoint r msg =
      let stored = store_checkpoint r msg in
      fire (can_enter_align stored) stored λ chkpt_idx. done (handle_enter_align stored chkpt_idx)

  unfoldable pub handle_state_request : Replica S → NodeId → List Effect
  handle_state_request r requester =
      send requester (state_reply r.state.node_id r.state.chkpt_idx r.state.chkpt_hash) ∷ []

  unfoldable pub can_state_reply : Replica S → Message → Option ℕ
  can_state_reply r msg = if not (phase_eq r.state.phase aligning) then none else reply_idx msg

  -- The block of `process_message` for a STATE-REQUEST.
  unfoldable pub on_state_request : Replica S → Message → Handled S
  unfolding can_state_request handle_state_request
  on_state_request r msg =
      fire (can_state_request msg) r λ requester. done (r, handle_state_request r requester)

  module _ ⦃ops : KvStoreOps S⦄ where
    -- The store rebuilt with `count` synthetic entries: `rebuild_from_entries(entries).expect(..)`.
    unfoldable pub rebuild_synthetic : S → ℕ → Outcome S
    rebuild_synthetic kv count =
        and_then (collect_synthetic count) λ entries. expect (ops.rebuild_from_entries kv entries)

    unfoldable pub handle_state_reply : Replica S → ℕ → Handled S
    handle_state_reply r chkpt_idx =
        and_then (rebuild_synthetic r.state.kv_store (chkpt_idx + 1)) λ kv. done (
          record r {
            state = record r.state {
              kv_store = kv;
              phase = speculative;
              chkpt_idx = chkpt_idx;
              chkpt_hash = unwrap_or (ops.hash_at kv chkpt_idx) zero_hash;
              kv_size = add64 chkpt_idx 1;
              start_idx = chkpt_idx;
            };
          },
          [],
        )

    -- The block of `process_message` for a STATE-REPLY.
    unfoldable pub on_state_reply : Replica S → Message → Handled S
    unfolding can_state_reply handle_state_reply
    on_state_reply r msg = fire (can_state_reply r msg) r (handle_state_reply r)
