-- ===== src/Spec/Listeners.antt =====
-- specs/aspen.qnt, the `listen_` functions: when a transition is enabled, and with what parameter. A
-- set that has one element at most is an `Option`.
use raspen.Prelude.{
  ℕ, ◌+◌, ◌-◌, ◌%◌, Bool, true, false, not, ◌&&◌, ◌||◌, Option, none, some, List, [], any,
  filter_map, length, get_elem?, ltb, leb, if◌then◌else◌,
}
use raspen.Types.{
  NodeId, Message, state_request, state_reply, Event, chkpt_timeout, repair_view_timeout, Config,
  phase_eq, speculative, aligning, collecting_logs, prepare_phase, commit_phase,
}
use raspen.Consensus.Replica.{named}
use raspen.Consensus.Checkpoint.{is_sync_timeout}
use raspen.Consensus.RepairEntry.{is_proof}
use raspen.Spec.States.{number, log_top_hash, LocalContext}
use raspen.Spec.Senders.{
  consistent_syncs, all_sync_senders, checkpoint_senders, timeout_senders, log_msg_senders,
  repair_prepare_senders, repair_commit_senders, repair_done_senders, has_repair_history,
  get_history_hash, conflict_proof_possible,
}

-- Round-robin leader election: `NODES_ORDERED.nth(view % n_replicas) == node`
unfoldable pub is_leader : Config → NodeId → ℕ → Bool
is_leader c node view = named (get_elem? c.nodes_ordered (view % length c.nodes_ordered)) node

abbrev pub timed_out_at : Event → Option ℕ
timed_out_at (chkpt_timeout log_idx) = some log_idx
timed_out_at _ = none

abbrev pub is_view_timeout : Event → Bool
is_view_timeout repair_view_timeout = true
is_view_timeout _ = false

abbrev pub requester : Message → Option NodeId
requester (state_request from _) = some from
requester _ = none

abbrev pub replied_idx : Message → Option ℕ
replied_idx (state_reply _ chkpt_idx _) = some chkpt_idx
replied_idx _ = none

module _ (c : Config) where
  unfoldable pub listen_speculate : LocalContext → Option ℕ
  listen_speculate ctx =
      if phase_eq ctx.state.phase speculative then some ctx.state.kv_size else none

  unfoldable pub listen_send_sync : LocalContext → Option ℕ
  listen_send_sync ctx =
      if phase_eq ctx.state.phase speculative
        && ltb 0 ctx.state.kv_size
        && (any is_sync_timeout ctx.events || ltb ctx.state.chkpt_idx ctx.state.kv_size)
      then some (ctx.state.kv_size - 1)
      else none

  unfoldable pub listen_form_checkpoint : LocalContext → Option ℕ
  unfolding consistent_syncs
  listen_form_checkpoint ctx =
      let st = ctx.state in
      if phase_eq st.phase speculative && ltb 0 st.kv_size
      then (if leb c.fast_quorum (
            length (
              consistent_syncs ctx.messages st.round (st.kv_size - 1)
                (number (log_top_hash st.kv_store st.kv_size))))
          then some (st.kv_size - 1)
          else none)
      else none

  unfoldable pub listen_enter_align : LocalContext → Option ℕ
  unfolding checkpoint_senders
  listen_enter_align ctx =
      let st = ctx.state in
      if phase_eq st.phase speculative
      then (if leb c.f_plus_1 (length (checkpoint_senders ctx.messages st.round st.chkpt_idx))
          then some st.chkpt_idx
          else none)
      else none

  unfoldable pub listen_conflict_proof : LocalContext → Option ℕ
  unfolding all_sync_senders consistent_syncs conflict_proof_possible
  listen_conflict_proof ctx =
      let st = ctx.state in
      let log_idx = st.kv_size - 1 in
      if phase_eq st.phase speculative && ltb 0 st.kv_size && not st.in_repair
      then (if conflict_proof_possible c (length (all_sync_senders ctx.messages st.round log_idx)) (
            length (
              consistent_syncs ctx.messages st.round log_idx
                (number (log_top_hash st.kv_store st.kv_size))))
          then some log_idx
          else none)
      else none

  unfoldable pub listen_chkpt_timeout : LocalContext → List ℕ
  listen_chkpt_timeout ctx =
      if phase_eq ctx.state.phase speculative && not ctx.state.in_repair
      then filter_map timed_out_at ctx.events
      else []

  unfoldable pub listen_timeout_proof : LocalContext → Option ℕ
  unfolding timeout_senders
  listen_timeout_proof ctx =
      let st = ctx.state in
      if phase_eq st.phase speculative && not st.in_repair && ltb 0 st.kv_size
      then (if leb c.f_plus_1 (length (timeout_senders ctx.messages st.round (st.kv_size - 1)))
          then some (st.kv_size - 1)
          else none)
      else none

  unfoldable pub listen_enter_repair : LocalContext → Option ℕ
  listen_enter_repair ctx =
      if not ctx.state.in_repair
      then (if any is_proof ctx.messages then some ctx.state.round else none)
      else none

  unfoldable pub listen_state_request : LocalContext → List NodeId
  listen_state_request ctx = filter_map requester ctx.messages

  unfoldable pub listen_state_reply : LocalContext → List ℕ
  listen_state_reply ctx =
      if phase_eq ctx.state.phase aligning then filter_map replied_idx ctx.messages else []

  unfoldable pub listen_broadcast_history : LocalContext → Option ℕ
  unfolding is_leader log_msg_senders
  listen_broadcast_history ctx =
      let st = ctx.state in
      let count = length (log_msg_senders ctx.messages st.view st.round) in
      if phase_eq st.phase collecting_logs && is_leader c st.process_id st.view
      then (if leb c.byz_quorum count then some count else none)
      else none

  unfoldable pub listen_repair_prepare : LocalContext → Option ℕ
  unfolding has_repair_history get_history_hash
  listen_repair_prepare ctx =
      let st = ctx.state in
      if (phase_eq st.phase collecting_logs || phase_eq st.phase prepare_phase)
        && has_repair_history ctx.messages st.view st.round
      then some (get_history_hash ctx.messages st.view st.round)
      else none

  unfoldable pub listen_repair_commit : LocalContext → Option ℕ
  unfolding repair_prepare_senders
  listen_repair_commit ctx =
      let st = ctx.state in
      if phase_eq st.phase prepare_phase
      then (if leb c.byz_quorum
            (length (repair_prepare_senders ctx.messages st.view st.round st.proposed_history_hash))
          then some st.proposed_history_hash
          else none)
      else none

  unfoldable pub listen_apply_repair : LocalContext → Option ℕ
  unfolding repair_commit_senders
  listen_apply_repair ctx =
      let st = ctx.state in
      if phase_eq st.phase commit_phase
      then (if leb c.byz_quorum
            (length (repair_commit_senders ctx.messages st.view st.round st.proposed_history_hash))
          then some st.proposed_history_hash
          else none)
      else none

  unfoldable pub listen_repair_done_catchup : LocalContext → Option ℕ
  unfolding repair_done_senders has_repair_history
  listen_repair_done_catchup ctx =
      let st = ctx.state in
      if phase_eq st.phase collecting_logs
        || phase_eq st.phase prepare_phase
        || phase_eq st.phase commit_phase
      then (if leb c.f_plus_1 (length (repair_done_senders ctx.messages st.view st.round))
            && has_repair_history ctx.messages st.view st.round
          then some st.round
          else none)
      else none

  unfoldable pub listen_view_change : LocalContext → Option ℕ
  listen_view_change ctx =
      if phase_eq ctx.state.phase collecting_logs && any is_view_timeout ctx.events
      then some (ctx.state.view + 1)
      else none
