-- ===== src/Tests/Specification.antt =====
-- Steps of the system of specs/aspen.qnt.
use raspen.Prelude.{refl, inl, List, [], ◌∷◌, any, filter_map, bytes_eq}
use raspen.Types.{NodeId, Message, conflict_proof, Event, chkpt_timeout}
use raspen.Spec.States.{initialize}
use raspen.Spec.Listeners.{listen_chkpt_timeout, listen_enter_repair}
use raspen.Spec.Handlers.{handle_chkpt_timeout, handle_enter_repair}
use raspen.Spec.Steps.{chkpt_timeout, enter_repair}
use raspen.Spec.System.{
  GlobalContext, apply, apply_effects, node_step, GlobalSteps, rest, then_steps,
}
use raspen.Spec.PhaseConsistency.{PhaseConsistent, phase_consistency}
use raspen.Tests.Fixtures.{name, config}

-- A proof of a conflict stands there for the first node, whose timer has fired.
abbrev given : NodeId → List Message
given p = conflict_proof 0 0 ∷ []

abbrev timers : NodeId → List Event
timers p = chkpt_timeout 4 ∷ []

abbrev begun : GlobalContext
begun = record { system = initialize; messages = given }

abbrev warned : GlobalContext
unfolding handle_chkpt_timeout
warned =
    let t = handle_chkpt_timeout (begun.system (name b'0')) 4 in
    apply begun (name b'0') t.post_state t.effects

abbrev repairing : GlobalContext
unfolding handle_enter_repair
repairing =
    let t = handle_enter_repair (warned.system (name b'0')) 0 in
    apply warned (name b'0') t.post_state t.effects

two_steps : GlobalSteps config timers begun repairing
unfolding listen_chkpt_timeout listen_enter_repair handle_chkpt_timeout handle_enter_repair
    apply_effects filter_map any bytes_eq
two_steps =
    then_steps
      (node_step (name b'0') (handle_chkpt_timeout (begun.system (name b'0')) 4)
        (chkpt_timeout 4 (inl refl)) (inl λ e. cc))
      (then_steps
        (node_step (name b'0') (handle_enter_repair (warned.system (name b'0')) 0)
          (enter_repair 0 refl) (inl λ e. cc))
        rest)

phase_consistency_example : PhaseConsistent (repairing.system (name b'0'))
phase_consistency_example = phase_consistency config timers given repairing (name b'0') two_steps
