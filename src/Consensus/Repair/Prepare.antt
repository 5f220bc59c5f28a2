-- ===== src/Consensus/Repair/Prepare.antt =====
-- raspen/crates/consensus/src/repair.rs: collecting the LOGs, the REPAIR-HISTORY, and the first round
-- of voting.
use raspen.Prelude.{
  ℕ, not, ◌&&◌, Option, none, some, List, [], ◌∷◌, done, count_if, filter_map, find_map, length,
  leb, if◌then◌else◌,
}
use raspen.Prelude.HashSet
use raspen.Types.{
  NodeId, Message, Message-discrete, repair_history, repair_prepare, repair_commit, Effect,
  broadcast, phase_eq, collecting_logs, prepare_phase, commit_phase,
}
use raspen.Consensus.Replica.{Replica, Handled, fire, is_leader}
use raspen.Consensus.Repair.Matching.{
  is_log_msg, is_repair_history, is_repair_prepare, log_sender, history_of, prepare_matches,
  NodeId-discrete,
}

module _ {S : Type 0} where
  -- The distinct senders of LOGs for the replica's view and round.
  unfoldable pub log_senders : Replica S → List NodeId
  log_senders r =
      HashSet.collect NodeId-discrete
        (filter_map (log_sender r.state.view r.state.round) r.state.log_msgs)

  unfoldable pub can_broadcast_history : Replica S → Option ℕ
  can_broadcast_history r =
      if not (phase_eq r.state.phase collecting_logs)
      then none
      else if not (is_leader r)
      then none
      else if leb r.config.byz_quorum (length (log_senders r))
      then some (length (log_senders r))
      else none

  unfoldable pub handle_broadcast_history : Replica S → ℕ → Replica S × List Effect
  handle_broadcast_history r history_hash = (
    record r {
      state = record r.state { phase = prepare_phase; proposed_history_hash = history_hash };
    },
    broadcast (repair_history r.state.node_id r.state.view r.state.round history_hash) ∷ [],
  )

  -- `log_msgs.insert(msg)` for a LOG.
  unfoldable pub store_log_msg : Replica S → Message → Replica S
  store_log_msg r msg =
      if is_log_msg msg
      then record r {
        state = record r.state { log_msgs = HashSet.insert Message-discrete msg r.state.log_msgs };
      }
      else r

  unfoldable pub on_receive_log_msg : Replica S → Message → Handled S
  unfolding store_log_msg can_broadcast_history handle_broadcast_history
  on_receive_log_msg r msg =
      let stored = store_log_msg r msg in
      fire (can_broadcast_history stored) stored
        λ history_hash. done (handle_broadcast_history stored history_hash)

  unfoldable pub can_repair_prepare : Replica S → Option ℕ
  can_repair_prepare r =
      if not (phase_eq r.state.phase collecting_logs) && not (phase_eq r.state.phase prepare_phase)
      then none
      else find_map (history_of r.state.view r.state.round) r.state.repair_history_msgs

  unfoldable pub handle_repair_prepare : Replica S → ℕ → Replica S × List Effect
  handle_repair_prepare r history_hash = (
    record r {
      state = record r.state { phase = prepare_phase; proposed_history_hash = history_hash };
    },
    broadcast (repair_prepare r.state.node_id r.state.view r.state.round history_hash) ∷ [],
  )

  -- `repair_history_msgs.insert(msg)` for a REPAIR-HISTORY.
  unfoldable pub store_repair_history : Replica S → Message → Replica S
  store_repair_history r msg =
      if is_repair_history msg
      then record r {
        state = record r.state {
          repair_history_msgs = HashSet.insert Message-discrete msg r.state.repair_history_msgs;
        };
      }
      else r

  unfoldable pub on_receive_repair_history : Replica S → Message → Handled S
  unfolding store_repair_history can_repair_prepare handle_repair_prepare
  on_receive_repair_history r msg =
      let stored = store_repair_history r msg in
      fire (can_repair_prepare stored) stored
        λ history_hash. done (handle_repair_prepare stored history_hash)

  -- The REPAIR-PREPAREs for the replica's view, round and proposed history.
  unfoldable pub prepare_quorum : Replica S → ℕ
  prepare_quorum r =
      count_if (prepare_matches r.state.view r.state.round r.state.proposed_history_hash)
        r.state.repair_prepare_msgs

  unfoldable pub can_repair_commit : Replica S → Option ℕ
  can_repair_commit r =
      if not (phase_eq r.state.phase prepare_phase)
      then none
      else if leb r.config.byz_quorum (prepare_quorum r)
      then some r.state.proposed_history_hash
      else none

  unfoldable pub handle_repair_commit : Replica S → ℕ → Replica S × List Effect
  handle_repair_commit r history_hash = (
    record r { state = record r.state { phase = commit_phase } },
    broadcast (repair_commit r.state.node_id r.state.view r.state.round history_hash) ∷ [],
  )

  -- `repair_prepare_msgs.insert(msg)` for a REPAIR-PREPARE.
  unfoldable pub store_repair_prepare : Replica S → Message → Replica S
  store_repair_prepare r msg =
      if is_repair_prepare msg
      then record r {
        state = record r.state {
          repair_prepare_msgs = HashSet.insert Message-discrete msg r.state.repair_prepare_msgs;
        };
      }
      else r

  unfoldable pub on_receive_repair_prepare : Replica S → Message → Handled S
  unfolding store_repair_prepare can_repair_commit handle_repair_commit
  on_receive_repair_prepare r msg =
      let stored = store_repair_prepare r msg in
      fire (can_repair_commit stored) stored
        λ history_hash. done (handle_repair_commit stored history_hash)
