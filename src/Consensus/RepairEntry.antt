-- ===== src/Consensus/RepairEntry.antt =====
-- raspen/crates/consensus/src/repair_entry.rs: the two ways into REPAIR.
use raspen.Prelude.{
  ℕ, ◌-◌, Bool, true, false, not, ◌&&◌, Option, none, some, List, [], ◌∷◌, done, count_if, leb, ltb,
  ◌==◌, if◌then◌else◌,
}
use raspen.Prelude.HashSet
use raspen.Types.{
  Message, Message-discrete, sync, timeout_msg, timeout_proof, conflict_proof, log_msg, Effect,
  broadcast, Event, chkpt_timeout, phase_eq, speculative, collecting_logs, KvStoreOps,
}
use raspen.Consensus.Replica.{Replica, Handled, fire}
use raspen.Consensus.Checkpoint.{sync_quorum}

-- A SYNC for this round and index, whatever its hash.
abbrev pub sync_at : ℕ → ℕ → Message → Bool
sync_at round log_idx (sync _ r li _ _) = r == round && li == log_idx
sync_at _ _ _ = false

abbrev pub is_timeout : Message → Bool
is_timeout (timeout_msg _ _ _) = true
is_timeout _ = false

abbrev pub timeout_matches : ℕ → ℕ → Message → Bool
timeout_matches round log_idx (timeout_msg _ r li) = r == round && li == log_idx
timeout_matches _ _ _ = false

abbrev pub is_proof : Message → Bool
is_proof (timeout_proof _ _) = true
is_proof (conflict_proof _ _) = true
is_proof _ = false

abbrev pub timeout_idx : Event → Option ℕ
timeout_idx (chkpt_timeout log_idx) = some log_idx
timeout_idx _ = none

module _ {S : Type 0} where
  -- The state change of the three ways into REPAIR: `phase = CollectingLogs; in_repair = true`.
  abbrev pub entered : Replica S → Replica S
  entered r = record r { state = record r.state { phase = collecting_logs; in_repair = true } }

  unfoldable pub can_chkpt_timeout : Replica S → Event → Option ℕ
  can_chkpt_timeout r event =
      if not (phase_eq r.state.phase speculative)
      then none
      else if r.state.in_repair
      then none
      else timeout_idx event

  unfoldable pub handle_chkpt_timeout : Replica S → ℕ → List Effect
  handle_chkpt_timeout r log_idx =
      broadcast (timeout_msg r.state.node_id r.state.round log_idx) ∷ []

  unfoldable pub can_timeout_proof : Replica S → Option ℕ
  can_timeout_proof r =
      if not (phase_eq r.state.phase speculative)
      then none
      else if r.state.in_repair
      then none
      else if r.state.kv_size == 0
      then none
      else if leb r.config.f_plus_1
          (count_if (timeout_matches r.state.round (r.state.kv_size - 1)) r.state.timeout_msgs)
      then some (r.state.kv_size - 1)
      else none

  -- `timeout_msgs.insert(msg)` for a TIMEOUT.
  unfoldable pub store_timeout : Replica S → Message → Replica S
  store_timeout r msg =
      if is_timeout msg
      then record r {
        state = record r.state {
          timeout_msgs = HashSet.insert Message-discrete msg r.state.timeout_msgs;
        };
      }
      else r

  unfoldable pub can_enter_repair : Replica S → Message → Option ℕ
  can_enter_repair r msg =
      if r.state.in_repair then none else if is_proof msg then some r.state.round else none

  -- The second block of `handle_event`.
  unfoldable pub on_chkpt_timeout : Replica S → Event → Handled S
  unfolding can_chkpt_timeout handle_chkpt_timeout
  on_chkpt_timeout r event =
      fire (can_chkpt_timeout r event) r λ log_idx. done (r, handle_chkpt_timeout r log_idx)

  module _ ⦃ops : KvStoreOps S⦄ where
    -- All SYNCs for the replica's round and top index.
    unfoldable pub sync_total : Replica S → ℕ
    sync_total r = count_if (sync_at r.state.round (r.state.kv_size - 1)) r.state.sync_msgs

    unfoldable pub can_conflict_proof : Replica S → Option ℕ
    can_conflict_proof r =
        if not (phase_eq r.state.phase speculative)
        then none
        else if r.state.kv_size == 0
        then none
        else if r.state.in_repair
        then none
        else if leb r.config.byz_quorum (sync_total r) && ltb (sync_quorum r) r.config.fast_quorum
        then some (r.state.kv_size - 1)
        else none

    -- The LOG message of this replica's view, round and top hash.
    abbrev pub own_log : Replica S → Message
    own_log r = log_msg r.state.node_id r.state.view r.state.round (ops.top_hash r.state.kv_store)

    unfoldable pub handle_conflict_proof : Replica S → ℕ → Replica S × List Effect
    handle_conflict_proof r log_idx =
        (entered r, broadcast (conflict_proof r.state.round log_idx) ∷ broadcast (own_log r) ∷ [])

    unfoldable pub handle_timeout_proof : Replica S → ℕ → Replica S × List Effect
    handle_timeout_proof r log_idx =
        (entered r, broadcast (timeout_proof r.state.round log_idx) ∷ broadcast (own_log r) ∷ [])

    unfoldable pub on_receive_timeout : Replica S → Message → Handled S
    unfolding store_timeout can_timeout_proof handle_timeout_proof
    on_receive_timeout r msg =
        let stored = store_timeout r msg in
        fire (can_timeout_proof stored) stored λ log_idx. done (handle_timeout_proof stored log_idx)

    unfoldable pub handle_enter_repair : Replica S → ℕ → Replica S × List Effect
    handle_enter_repair r round = (entered r, broadcast (own_log r) ∷ [])

    -- The block of `process_message` for a conflict proof.
    unfoldable pub on_conflict : Replica S → Handled S
    unfolding can_conflict_proof handle_conflict_proof
    on_conflict r = fire (can_conflict_proof r) r λ log_idx. done (handle_conflict_proof r log_idx)

    -- The block of `process_message` for the entry into REPAIR.
    unfoldable pub on_proof : Replica S → Message → Handled S
    unfolding can_enter_repair handle_enter_repair
    on_proof r msg = fire (can_enter_repair r msg) r λ round. done (handle_enter_repair r round)
