-- ===== src/Spec/System.antt =====
-- specs/choreo/choreo.qnt: all nodes together, and what a transition of one of them does to the
-- messages. The events that happen to the nodes are given, and so are the messages that stand there
-- at first; a set of messages is a list of them.
use raspen.Prelude.{◌≢◌, ◌⊎◌, List, [], ◌∷◌, bytes_eq, if◌then◌else◌}
use raspen.Types.{NodeId, Message, Effect, broadcast, send, Event, Config}
use raspen.Spec.States.{LocalState, LocalContext, Transition}
use raspen.Spec.Steps.{Cue}

-- `setBy(node, _ => value)`
abbrev pub update : {A : Type 0} → NodeId → A → (NodeId → A) → NodeId → A
update node value f p = if bytes_eq p node then value else f p

-- The messages after an effect.
abbrev pub apply_effect : Effect → (NodeId → List Message) → NodeId → List Message
apply_effect (broadcast m) messages p = m ∷ messages p
apply_effect (send to m) messages p = if bytes_eq p to then m ∷ messages p else messages p

-- `tr.effects.fold(..)`
unfoldable pub apply_effects : List Effect → (NodeId → List Message) → NodeId → List Message
apply_effects [] messages = messages
apply_effects (e ∷ effects) messages = apply_effects effects (apply_effect e messages)

-- `GlobalContext`
pub record GlobalContext : Type 0 where
  pub system : NodeId → LocalState
  pub messages : NodeId → List Message

-- The node changes to the state, with the effects.
abbrev pub apply : GlobalContext → NodeId → LocalState → List Effect → GlobalContext
apply g v st effects = record {
  system = update v st g.system;
  messages = apply_effects effects g.messages;
}

module _ (c : Config) (events : NodeId → List Event) where
  -- `convert_context(s, v)`: the node sees every message that was sent to it, and its events.
  abbrev pub convert_context : GlobalContext → NodeId → LocalContext
  convert_context g v = record { state = g.system v; messages = g.messages v; events = events v }

  -- `step(main_listener, ..)`: a node takes one of its transitions that has effects or changes its
  -- state.
  pub data GlobalStep (g : GlobalContext) : GlobalContext → Type 0 where
    node_step :
        (v : NodeId) (t : Transition)
        → Cue c (convert_context g v) t
        → (t.effects ≢ []) ⊎ (t.post_state ≢ g.system v)
        → GlobalStep g (apply g v t.post_state t.effects)

  pub data GlobalSteps : GlobalContext → GlobalContext → Type 0 where
    rest : {g : GlobalContext} → GlobalSteps g g
    then_steps : {g h k : GlobalContext} → GlobalStep g h → GlobalSteps h k → GlobalSteps g k
