-- ===== src/Consensus/Checkpoint.antt =====
-- raspen/crates/consensus/src/checkpoint.rs: SYNC broadcasts and the forming of checkpoints.
use raspen.Prelude.{
  ℕ, ◌-◌, Bool, true, false, not, ◌&&◌, Option, none, some, List, [], ◌∷◌, done, count_if, leb,
  ◌==◌, bytes_eq, if◌then◌else◌,
}
use raspen.Prelude.HashSet
use raspen.Types.{
  Hash, Message, Message-discrete, sync, checkpoint, Effect, broadcast, Event, sync_timeout,
  phase_eq, speculative, KvStoreOps,
}
use raspen.Consensus.Replica.{Replica, Handled, fire}

abbrev pub is_sync_timeout : Event → Bool
is_sync_timeout sync_timeout = true
is_sync_timeout _ = false

abbrev pub is_sync : Message → Bool
is_sync (sync _ _ _ _ _) = true
is_sync _ = false

-- A SYNC for this round, index and hash.
abbrev pub sync_matches : ℕ → ℕ → Hash → Message → Bool
sync_matches round log_idx log_hash (sync _ r li lh _) =
    r == round && li == log_idx && bytes_eq lh log_hash
sync_matches _ _ _ _ = false

module _ {S : Type 0} where
  unfoldable pub can_send_sync_on_event : Replica S → Event → Option ℕ
  can_send_sync_on_event r event =
      if not (is_sync_timeout event)
      then none
      else if not (phase_eq r.state.phase speculative)
      then none
      else if r.state.kv_size == 0
      then none
      else some (r.state.kv_size - 1)

  unfoldable pub can_send_sync_threshold : Replica S → Option ℕ
  can_send_sync_threshold r =
      if not (phase_eq r.state.phase speculative)
      then none
      else if r.state.kv_size == 0
      then none
      else if leb r.state.kv_size r.state.chkpt_idx
      then none
      else some (r.state.kv_size - 1)

  -- `sync_msgs.insert(msg)` for a SYNC.
  unfoldable pub store_sync : Replica S → Message → Replica S
  store_sync r msg =
      if is_sync msg
      then record r {
        state = record r.state {
          sync_msgs = HashSet.insert Message-discrete msg r.state.sync_msgs;
        };
      }
      else r

  module _ ⦃ops : KvStoreOps S⦄ where
    unfoldable pub handle_send_sync : Replica S → ℕ → List Effect
    handle_send_sync r log_idx =
        broadcast (
          sync r.state.node_id r.state.round log_idx (ops.top_hash r.state.kv_store)
            r.state.eta_star)
        ∷ []

    -- The SYNCs that agree with the replica's round, top index and top hash.
    unfoldable pub sync_quorum : Replica S → ℕ
    sync_quorum r =
        count_if (sync_matches r.state.round (r.state.kv_size - 1) (ops.top_hash r.state.kv_store))
          r.state.sync_msgs

    unfoldable pub can_form_checkpoint : Replica S → Option ℕ
    can_form_checkpoint r =
        if not (phase_eq r.state.phase speculative)
        then none
        else if r.state.kv_size == 0
        then none
        else if leb r.config.fast_quorum (sync_quorum r)
        then some (r.state.kv_size - 1)
        else none

    unfoldable pub handle_form_checkpoint : Replica S → ℕ → Replica S × List Effect
    handle_form_checkpoint r log_idx =
        let log_hash = ops.top_hash r.state.kv_store in
        (
          record r { state = record r.state { chkpt_idx = log_idx; chkpt_hash = log_hash } },
          broadcast (checkpoint r.state.node_id r.state.round log_idx log_hash) ∷ [],
        )

    unfoldable pub on_receive_sync : Replica S → Message → Handled S
    unfolding store_sync can_form_checkpoint handle_form_checkpoint
    on_receive_sync r msg =
        let stored = store_sync r msg in
        fire (can_form_checkpoint stored) stored
          λ log_idx. done (handle_form_checkpoint stored log_idx)

    -- The second block of `process_message`.
    unfoldable pub on_sync_threshold : Replica S → Handled S
    unfolding can_send_sync_threshold handle_send_sync
    on_sync_threshold r =
        fire (can_send_sync_threshold r) r λ log_idx. done (r, handle_send_sync r log_idx)

    -- The first block of `handle_event`.
    unfoldable pub on_sync_timeout : Replica S → Event → Handled S
    unfolding can_send_sync_on_event handle_send_sync
    on_sync_timeout r event =
        fire (can_send_sync_on_event r event) r λ log_idx. done (r, handle_send_sync r log_idx)
