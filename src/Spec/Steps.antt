-- ===== src/Spec/Steps.antt =====
-- specs/aspen.qnt, `main_listener`: the transitions of a node (`cue` of specs/choreo/choreo.qnt).
use raspen.Prelude.{ℕ, ◌≡◌, ◌⊎◌, some, List, [], ◌∷◌}
use raspen.Types.{NodeId, Config}
use raspen.Spec.States.{LocalContext, Transition}
use raspen.Spec.Listeners.{
  listen_speculate, listen_send_sync, listen_form_checkpoint, listen_enter_align,
  listen_conflict_proof, listen_chkpt_timeout, listen_timeout_proof, listen_enter_repair,
  listen_state_request, listen_state_reply, listen_broadcast_history, listen_repair_prepare,
  listen_repair_commit, listen_apply_repair, listen_repair_done_catchup, listen_view_change,
}
use raspen.Spec.Handlers.{
  handle_speculate, handle_send_sync, handle_form_checkpoint, handle_enter_align,
  handle_conflict_proof, handle_chkpt_timeout, handle_timeout_proof, handle_enter_repair,
  handle_state_request, handle_state_reply, handle_broadcast_history, handle_repair_prepare,
  handle_repair_commit, handle_apply_repair, handle_repair_done_catchup, handle_view_change,
}

-- The element stands in the list.
abbrev pub In : {A : Type 0} → List A → A → Type 0
In [] a = ⊥
In (x ∷ xs) a = (x ≡ a) ⊎ In xs a

module _ (c : Config) where
  -- The transitions of `main_listener`, one constructor for each `cue`.
  pub data Cue (ctx : LocalContext) : Transition → Type 0 where
    speculate : (k : ℕ) → listen_speculate c ctx ≡ some k → Cue ctx (handle_speculate ctx.state k)
    send_sync : (k : ℕ) → listen_send_sync c ctx ≡ some k → Cue ctx (handle_send_sync ctx.state k)
    form_checkpoint :
        (k : ℕ)
        → listen_form_checkpoint c ctx ≡ some k
        → Cue ctx (handle_form_checkpoint ctx.state k)
    enter_align :
        (k : ℕ) → listen_enter_align c ctx ≡ some k → Cue ctx (handle_enter_align ctx.state k)
    conflict_proof :
        (k : ℕ) → listen_conflict_proof c ctx ≡ some k → Cue ctx (handle_conflict_proof ctx.state k)
    chkpt_timeout :
        (k : ℕ) → In (listen_chkpt_timeout c ctx) k → Cue ctx (handle_chkpt_timeout ctx.state k)
    timeout_proof :
        (k : ℕ) → listen_timeout_proof c ctx ≡ some k → Cue ctx (handle_timeout_proof ctx.state k)
    enter_repair :
        (k : ℕ) → listen_enter_repair c ctx ≡ some k → Cue ctx (handle_enter_repair ctx.state k)
    state_request :
        (requester : NodeId)
        → In (listen_state_request c ctx) requester
        → Cue ctx (handle_state_request ctx.state requester)
    state_reply :
        (k : ℕ) → In (listen_state_reply c ctx) k → Cue ctx (handle_state_reply ctx.state k)
    broadcast_history :
        (k : ℕ)
        → listen_broadcast_history c ctx ≡ some k
        → Cue ctx (handle_broadcast_history ctx.state k)
    repair_prepare :
        (k : ℕ) → listen_repair_prepare c ctx ≡ some k → Cue ctx (handle_repair_prepare ctx.state k)
    repair_commit :
        (k : ℕ) → listen_repair_commit c ctx ≡ some k → Cue ctx (handle_repair_commit ctx.state k)
    apply_repair :
        (k : ℕ) → listen_apply_repair c ctx ≡ some k → Cue ctx (handle_apply_repair ctx.state k)
    repair_done_catchup :
        (k : ℕ)
        → listen_repair_done_catchup c ctx ≡ some k
        → Cue ctx (handle_repair_done_catchup ctx.state k)
    view_change :
        (k : ℕ) → listen_view_change c ctx ≡ some k → Cue ctx (handle_view_change ctx.state k)
