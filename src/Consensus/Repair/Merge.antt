-- ===== src/Consensus/Repair/Merge.antt =====
-- raspen/crates/consensus/src/repair.rs: the second round of voting, the merge that ends a round,
-- catching up from REPAIR-DONEs, and the view change.
use raspen.Prelude.{
  ℕ, false, not, ◌&&◌, Option, none, some, List, [], ◌∷◌, done, Outcome, and_then, count_if, any,
  leb, ltb, add64, if◌then◌else◌,
}
use raspen.Prelude.HashSet
use raspen.Types.{
  Message, Message-discrete, log_msg, repair_done, committed_reply, Effect, broadcast, Event,
  phase_eq, speculative, collecting_logs, commit_phase, KvStoreOps,
}
use raspen.Consensus.Replica.{Replica, Handled, fire}
use raspen.Consensus.Alignment.{rebuild_synthetic}
use raspen.Consensus.Repair.Matching.{
  is_repair_commit, is_repair_done, is_repair_phase, commit_matches, done_matches, history_matches,
  next_view,
}

module _ {S : Type 0} where
  -- The REPAIR-COMMITs for the replica's view, round and proposed history.
  unfoldable pub commit_quorum : Replica S → ℕ
  commit_quorum r =
      count_if (commit_matches r.state.view r.state.round r.state.proposed_history_hash)
        r.state.repair_commit_msgs

  unfoldable pub can_apply_repair : Replica S → Option ℕ
  can_apply_repair r =
      if not (phase_eq r.state.phase commit_phase)
      then none
      else if leb r.config.byz_quorum (commit_quorum r)
      then some r.state.proposed_history_hash
      else none

  -- `repair_commit_msgs.insert(msg)` for a REPAIR-COMMIT.
  unfoldable pub store_repair_commit : Replica S → Message → Replica S
  store_repair_commit r msg =
      if is_repair_commit msg
      then record r {
        state = record r.state {
          repair_commit_msgs = HashSet.insert Message-discrete msg r.state.repair_commit_msgs;
        };
      }
      else r

  -- The REPAIR-DONEs for the replica's view and round.
  unfoldable pub done_count : Replica S → ℕ
  done_count r = count_if (done_matches r.state.view r.state.round) r.state.repair_done_msgs

  unfoldable pub can_repair_done_catchup : Replica S → Option ℕ
  can_repair_done_catchup r =
      if not (is_repair_phase r.state.phase)
      then none
      else if leb r.config.f_plus_1 (done_count r)
          && any (history_matches r.state.view r.state.round) r.state.repair_history_msgs
      then some r.state.round
      else none

  unfoldable pub handle_repair_done_catchup : Replica S → ℕ → Replica S × List Effect
  handle_repair_done_catchup r round = (
    record r {
      state = record r.state {
        phase = speculative;
        round = add64 r.state.round 1;
        start_idx = r.state.kv_size;
        in_repair = false;
        proposed_history_hash = 0;
      };
    },
    [],
  )

  -- `repair_done_msgs.insert(msg)` for a REPAIR-DONE.
  unfoldable pub store_repair_done : Replica S → Message → Replica S
  store_repair_done r msg =
      if is_repair_done msg
      then record r {
        state = record r.state {
          repair_done_msgs = HashSet.insert Message-discrete msg r.state.repair_done_msgs;
        };
      }
      else r

  unfoldable pub on_receive_repair_done : Replica S → Message → Handled S
  unfolding store_repair_done can_repair_done_catchup handle_repair_done_catchup
  on_receive_repair_done r msg =
      let stored = store_repair_done r msg in
      fire (can_repair_done_catchup stored) stored
        λ round. done (handle_repair_done_catchup stored round)

  unfoldable pub can_view_change : Replica S → Event → Option ℕ
  can_view_change r event =
      if not (phase_eq r.state.phase collecting_logs) then none else next_view r.state.view event

  module _ ⦃ops : KvStoreOps S⦄ where
    -- The store after the merge: rebuilt, unless the merged size is 0.
    unfoldable pub merged_store : S → ℕ → Outcome S
    merged_store kv merged_size =
        if ltb 0 merged_size then rebuild_synthetic kv merged_size else done kv

    unfoldable pub handle_apply_repair : Replica S → ℕ → Handled S
    unfolding merged_store
    handle_apply_repair r history_hash = and_then (merged_store r.state.kv_store history_hash) λ kv.
        done (
          record r {
            state = record r.state {
              kv_store = kv;
              phase = speculative;
              round = add64 r.state.round 1;
              start_idx = history_hash;
              kv_size = history_hash;
              in_repair = false;
              proposed_history_hash = 0;
            };
          },
          broadcast (repair_done r.state.node_id r.state.view r.state.round history_hash)
              ∷ broadcast (committed_reply r.state.node_id r.state.round r.state.kv_size)
              ∷ [],
        )

    unfoldable pub on_receive_repair_commit : Replica S → Message → Handled S
    unfolding store_repair_commit can_apply_repair handle_apply_repair
    on_receive_repair_commit r msg =
        let stored = store_repair_commit r msg in
        fire (can_apply_repair stored) stored (handle_apply_repair stored)

    unfoldable pub handle_view_change : Replica S → ℕ → Replica S × List Effect
    handle_view_change r new_view = (
      record r { state = record r.state { view = new_view } },
      broadcast (log_msg r.state.node_id new_view r.state.round (ops.top_hash r.state.kv_store))
          ∷ [],
    )

    -- The third block of `handle_event`.
    unfoldable pub on_repair_view_timeout : Replica S → Event → Handled S
    unfolding can_view_change handle_view_change
    on_repair_view_timeout r event =
        fire (can_view_change r event) r λ new_view. done (handle_view_change r new_view)
