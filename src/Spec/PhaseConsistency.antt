-- ===== src/Spec/PhaseConsistency.antt =====
-- The invariant `phase_consistency` of specs/aspen.qnt.
use raspen.Prelude.{
  ◌≡◌, ◌≢◌, refl, subst, inl, inr, true, List, Bool-cases, bytes_eq, bytes_eq_iff, arith,
}
use raspen.Types.{NodeId, Event, Message, Config, speculative, aligning, phase_eq}
use raspen.Consensus.Repair.{is_repair_phase}
use raspen.Spec.States.{LocalState, LocalContext, Transition, initialize}
use raspen.Spec.Listeners.{
  listen_speculate, listen_enter_align, listen_state_reply, listen_broadcast_history,
  listen_repair_prepare, listen_repair_commit, listen_view_change,
}
use raspen.Spec.Handlers.{
  handle_speculate, handle_send_sync, handle_form_checkpoint, handle_enter_align,
  handle_conflict_proof, handle_chkpt_timeout, handle_timeout_proof, handle_enter_repair,
  handle_state_request, handle_state_reply, handle_broadcast_history, handle_repair_prepare,
  handle_repair_commit, handle_apply_repair, handle_repair_done_catchup, handle_view_change,
}
use raspen.Spec.Steps.{
  Cue, speculate, send_sync, form_checkpoint, enter_align, conflict_proof, chkpt_timeout,
  timeout_proof, enter_repair, state_request, state_reply, broadcast_history, repair_prepare,
  repair_commit, apply_repair, repair_done_catchup, view_change,
}
use raspen.Spec.System.{GlobalContext, convert_context, node_step, GlobalSteps, rest, then_steps}

-- The flag is set in the phases of REPAIR, and in no other.
abbrev Agrees : LocalState → Type 0
Agrees st = st.in_repair ≡ is_repair_phase st.phase

abbrev pub PhaseConsistent : LocalState → Type 0
PhaseConsistent st = st.in_repair ≡ true → (st.phase ≢ speculative) × (st.phase ≢ aligning)

Agrees-PhaseConsistent : (st : LocalState) → Agrees st → PhaseConsistent st
Agrees-PhaseConsistent st agrees repairing = ground arith

module _ (c : Config) where
  Cue-Agrees :
      (ctx : LocalContext) (t : Transition) → Cue c ctx t → Agrees ctx.state → Agrees t.post_state
  unfolding listen_speculate listen_enter_align listen_state_reply listen_broadcast_history
      listen_repair_prepare listen_repair_commit listen_view_change handle_speculate
      handle_send_sync handle_form_checkpoint handle_enter_align handle_conflict_proof
      handle_chkpt_timeout handle_timeout_proof handle_enter_repair handle_state_request
      handle_state_reply handle_broadcast_history handle_repair_prepare handle_repair_commit
      handle_apply_repair handle_repair_done_catchup handle_view_change
  Cue-Agrees ctx _ (speculate k on) agrees = ground arith
  Cue-Agrees ctx _ (send_sync k on) agrees = agrees
  Cue-Agrees ctx _ (form_checkpoint k on) agrees = agrees
  Cue-Agrees ctx _ (enter_align k on) agrees = ground arith
  Cue-Agrees ctx _ (conflict_proof k on) agrees = refl
  Cue-Agrees ctx _ (chkpt_timeout k on) agrees = agrees
  Cue-Agrees ctx _ (timeout_proof k on) agrees = refl
  Cue-Agrees ctx _ (enter_repair k on) agrees = refl
  Cue-Agrees ctx _ (state_request requester on) agrees = agrees
  Cue-Agrees ctx _ (state_reply k on) agrees =
      elim (Bool-cases (phase_eq ctx.state.phase aligning)) [
        | inl is ↦ ground arith
        | inr other ↦ absurd (rw other at on)
      ]
  Cue-Agrees ctx _ (broadcast_history k on) agrees = ground arith
  Cue-Agrees ctx _ (repair_prepare k on) agrees = ground arith
  Cue-Agrees ctx _ (repair_commit k on) agrees = ground arith
  Cue-Agrees ctx _ (apply_repair k on) agrees = refl
  Cue-Agrees ctx _ (repair_done_catchup k on) agrees = refl
  Cue-Agrees ctx _ (view_change k on) agrees = agrees

  GlobalSteps-Agrees :
      (events : NodeId → List Event) (v : NodeId) {g h : GlobalContext}
      → GlobalSteps c events g h
      → Agrees (g.system v)
      → Agrees (h.system v)
  GlobalSteps-Agrees events v rest agrees = agrees
  GlobalSteps-Agrees events v {g = g} (then_steps (node_step x t cue acts) later) agrees =
      GlobalSteps-Agrees events v later (elim (Bool-cases (bytes_eq v x)) [
        | inl here ↦ rw here (
            Cue-Agrees (convert_context c events g x) t cue
              (subst (λ p. Agrees (g.system p)) ((bytes_eq_iff v x).0 here) agrees))
        | inr other ↦ rw other agrees
      ])

  -- `phase_consistency` is an invariant of the specification: in every state that the system reaches
  -- from its initial one, whatever messages stand there at first and whatever events happen, a node
  -- whose `in_repair` is set is neither in the phase Speculative nor in Aligning.
  pub phase_consistency :
      (events : NodeId → List Event) (messages : NodeId → List Message) (g : GlobalContext)
      (v : NodeId)
      → GlobalSteps c events (record { system = λ p. initialize p; messages = messages }) g
      → PhaseConsistent (g.system v)
  phase_consistency events messages g v steps =
      Agrees-PhaseConsistent (g.system v) (GlobalSteps-Agrees events v steps refl)
