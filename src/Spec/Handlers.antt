-- ===== src/Spec/Handlers.antt =====
-- specs/aspen.qnt, the `handle_` functions: the state after a transition, and its effects. A set of
-- effects is a list of them.
use raspen.Prelude.{ℕ, ◌+◌, ◌-◌, true, false, [], ◌∷◌, ltb, if◌then◌else◌}
use raspen.Types.{
  Hash, NodeId, spec_reply, sync, checkpoint, state_request, state_reply, timeout_msg,
  timeout_proof, conflict_proof, log_msg, repair_history, repair_prepare, repair_commit,
  repair_done, committed_reply, Effect, broadcast, send, speculative, aligning, collecting_logs,
  prepare_phase, commit_phase,
}
use raspen.Spec.States.{
  KvStore, number, log_hash_at, log_top_hash, put, rebuilt, LocalState, Transition,
}

abbrev top : LocalState → Hash
top st = number (log_top_hash st.kv_store st.kv_size)

-- `LogMsg({ from: st.process_id, view: .., round: st.round, log_hash: log_top_hash(..) })`
abbrev log_at : LocalState → ℕ → Effect
log_at st view = broadcast (log_msg st.process_id view st.round (top st))

-- `{ ...st, phase: CollectingLogs, in_repair: true }`
abbrev repairing : LocalState → LocalState
repairing st = record st { phase = collecting_logs; in_repair = true }

-- `if (log_idx > 0) log_hash_at(st.kv_store, log_idx - 1) else 0`
abbrev hash_before : KvStore → ℕ → ℕ
hash_before store log_idx = if ltb 0 log_idx then log_hash_at store (log_idx - 1) else 0

unfoldable pub handle_speculate : LocalState → ℕ → Transition
handle_speculate st log_idx =
    let new_store =
      put log_idx
        (record {
          op_hash = log_idx;
          result = log_idx;
          prev_hash = hash_before st.kv_store log_idx;
        })
        st.kv_store in
    record {
      post_state = record st { kv_size = st.kv_size + 1; kv_store = new_store };
      effects =
          broadcast
            (spec_reply st.process_id st.round log_idx (number (log_hash_at new_store log_idx)))
          ∷ [];
    }

unfoldable pub handle_send_sync : LocalState → ℕ → Transition
handle_send_sync st log_idx = record {
  post_state = st;
  effects = broadcast (sync st.process_id st.round log_idx (top st) st.eta_star) ∷ [];
}

unfoldable pub handle_form_checkpoint : LocalState → ℕ → Transition
handle_form_checkpoint st log_idx = record {
  post_state = record st { chkpt_idx = log_idx; chkpt_hash = top st };
  effects = broadcast (checkpoint st.process_id st.round log_idx (top st)) ∷ [];
}

unfoldable pub handle_enter_align : LocalState → ℕ → Transition
handle_enter_align st chkpt_idx = record {
  post_state = record st { phase = aligning };
  effects = broadcast (state_request st.process_id chkpt_idx) ∷ [];
}

unfoldable pub handle_conflict_proof : LocalState → ℕ → Transition
handle_conflict_proof st log_idx = record {
  post_state = repairing st;
  effects = broadcast (conflict_proof st.round log_idx) ∷ log_at st st.view ∷ [];
}

unfoldable pub handle_chkpt_timeout : LocalState → ℕ → Transition
handle_chkpt_timeout st log_idx = record {
  post_state = st;
  effects = broadcast (timeout_msg st.process_id st.round log_idx) ∷ [];
}

unfoldable pub handle_timeout_proof : LocalState → ℕ → Transition
handle_timeout_proof st log_idx = record {
  post_state = repairing st;
  effects = broadcast (timeout_proof st.round log_idx) ∷ log_at st st.view ∷ [];
}

unfoldable pub handle_enter_repair : LocalState → ℕ → Transition
handle_enter_repair st round = record {
  post_state = repairing st;
  effects = log_at st st.view ∷ [];
}

unfoldable pub handle_state_request : LocalState → NodeId → Transition
handle_state_request st requester = record {
  post_state = st;
  effects = send requester (state_reply st.process_id st.chkpt_idx st.chkpt_hash) ∷ [];
}

unfoldable pub handle_state_reply : LocalState → ℕ → Transition
handle_state_reply st chkpt_idx = record {
  post_state = record st {
    phase = speculative;
    chkpt_idx = chkpt_idx;
    chkpt_hash = number (log_hash_at (rebuilt (chkpt_idx + 1)) chkpt_idx);
    kv_size = chkpt_idx + 1;
    kv_store = rebuilt (chkpt_idx + 1);
    start_idx = chkpt_idx;
  };
  effects = [];
}

unfoldable pub handle_broadcast_history : LocalState → ℕ → Transition
handle_broadcast_history st history_hash = record {
  post_state = record st { phase = prepare_phase; proposed_history_hash = history_hash };
  effects = broadcast (repair_history st.process_id st.view st.round history_hash) ∷ [];
}

unfoldable pub handle_repair_prepare : LocalState → ℕ → Transition
handle_repair_prepare st history_hash = record {
  post_state = record st { phase = prepare_phase; proposed_history_hash = history_hash };
  effects = broadcast (repair_prepare st.process_id st.view st.round history_hash) ∷ [];
}

unfoldable pub handle_repair_commit : LocalState → ℕ → Transition
handle_repair_commit st history_hash = record {
  post_state = record st { phase = commit_phase };
  effects = broadcast (repair_commit st.process_id st.view st.round history_hash) ∷ [];
}

unfoldable pub handle_apply_repair : LocalState → ℕ → Transition
handle_apply_repair st history_hash = record {
  post_state = record st {
    phase = speculative;
    round = st.round + 1;
    start_idx = history_hash;
    kv_size = history_hash;
    kv_store = rebuilt history_hash;
    in_repair = false;
    proposed_history_hash = 0;
  };
  effects =
      broadcast (repair_done st.process_id st.view st.round history_hash)
      ∷ broadcast (committed_reply st.process_id st.round st.kv_size)
      ∷ [];
}

unfoldable pub handle_repair_done_catchup : LocalState → ℕ → Transition
handle_repair_done_catchup st round = record {
  post_state = record st {
    phase = speculative;
    round = st.round + 1;
    start_idx = st.kv_size;
    in_repair = false;
    proposed_history_hash = 0;
  };
  effects = [];
}

unfoldable pub handle_view_change : LocalState → ℕ → Transition
handle_view_change st new_view = record {
  post_state = record st { view = new_view };
  effects = log_at st new_view ∷ [];
}
