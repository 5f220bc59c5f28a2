-- ===== src/Cluster/Projection.antt =====
-- What the nodes of a cluster do one by one: the run of each, and where a message comes from.
use raspen.Prelude.{
  ◌≤◌, ◌≡◌, refl, sym, subst, Bool, true, false, ◌⊎◌, inl, inr, List, [], ◌∷◌, ◌++◌, length,
  Outcome, done, All, Bool-cases, bytes_eq, bytes_eq_iff, bytes_eq_refl, if◌then◌else◌, arith,
}
use raspen.Types.{NodeId, Message, Effect, broadcast, send, Event, KvStoreOps}
use raspen.Consensus.Replica.{Replica}
use raspen.Consensus.Node.{ReplicaInput, message, event, handle_input, run_node}
use raspen.Spec.Steps.{In}
use raspen.Spec.System.{update, apply_effect, apply_effects}
use raspen.Cluster.{
  Cluster, Among, ClusterSteps, at_rest, then_handles, handles, steps_count, inputs_at,
}

-- What stands in the one list stands in the other.
abbrev pub Within : {A : Type 0} → List A → List A → Type 0
Within xs ys = (a : _) → In xs a → In ys a

apply_effect-Within :
    (e : Effect) (messages : NodeId → List Message) (p : NodeId)
    → Within (messages p) (apply_effect e messages p)
apply_effect-Within (broadcast m) messages p x here = inr here
apply_effect-Within (send to m) messages p x here = elim (Bool-cases (bytes_eq p to)) [
  | inl is ↦ rw is (inr here)
  | inr other ↦ rw other here
]

-- No message is taken back.
pub apply_effects-Within :
    (effects : List Effect) (messages : NodeId → List Message) (p : NodeId)
    → Within (messages p) (apply_effects effects messages p)
unfolding apply_effects
apply_effects-Within [] messages p x here = here
apply_effects-Within (e ∷ effects) messages p x here =
    apply_effects-Within effects (apply_effect e messages) p x
      (apply_effect-Within e messages p x here)

-- The effect carries the message.
abbrev pub Carries : Message → Effect → Type 0
Carries m (broadcast m') = m' ≡ m
Carries m (send to m') = m' ≡ m

In-append_left : {A : Type 0} (xs ys : List A) (a : A) → In xs a → In (xs ++ ys) a
In-append_left [] ys a here = absurd here
In-append_left (x ∷ xs) ys a (inl here) = inl here
In-append_left (x ∷ xs) ys a (inr here) = inr (In-append_left xs ys a here)

In-append_right : {A : Type 0} (xs ys : List A) (a : A) → In ys a → In (xs ++ ys) a
In-append_right [] ys a here = here
In-append_right (x ∷ xs) ys a here = inr (In-append_right xs ys a here)

apply_effect-origin :
    (e : Effect) (messages : NodeId → List Message) (p : NodeId) (m : Message)
    → In (apply_effect e messages p) m
    → In (messages p) m ⊎ Carries m e
apply_effect-origin (broadcast m') messages p m (inl new) = inr new
apply_effect-origin (broadcast m') messages p m (inr old) = inl old
apply_effect-origin (send to m') messages p m here = elim (Bool-cases (bytes_eq p to)) [
  | inl is ↦ swap (rw is at here)
  | inr other ↦ inl (rw other at here)
]
  where
    swap : In (m' ∷ messages p) m → In (messages p) m ⊎ (m' ≡ m)
    swap (inl new) = inr new
    swap (inr old) = inl old

-- A message stood there before the effects, or one of them carries it.
apply_effects-origin :
    (effects : List Effect) (messages : NodeId → List Message) (p : NodeId) (m : Message)
    → In (apply_effects effects messages p) m
    → In (messages p) m ⊎ ((e : Effect) × In effects e × Carries m e)
unfolding apply_effects
apply_effects-origin [] messages p m here = inl here
apply_effects-origin (e ∷ effects) messages p m here =
    elim (apply_effects-origin effects (apply_effect e messages) p m here) [
      | inl before ↦ elim (apply_effect-origin e messages p m before) [
        | inl old ↦ inl old
        | inr carried ↦ inr (e, inl refl, carried)
      ]
      | inr (f, stands, carried) ↦ inr (f, inr stands, carried)
    ]

-- The input is an event, or a message of the list.
abbrev pub WasSent : List Message → ReplicaInput → Type 0
WasSent messages (message msg) = In messages msg
WasSent messages (event ev) = Unit

Among-WasSent :
    (messages more : List Message) (happened : List Event) (input : ReplicaInput)
    → Within messages more
    → Among messages happened input
    → WasSent more input
Among-WasSent messages more happened (message msg) within among = within msg among
Among-WasSent messages more happened (event ev) within among = tt

module _ {S : Type 0} ⦃ops : KvStoreOps S⦄ (events : NodeId → List Event) where
  -- What a node comes to over the inputs that it handles, and what it sends.
  abbrev pub node_run :
      (v : NodeId) {cl end : Cluster S}
      → ClusterSteps events cl end
      → List Effect × Outcome (Replica S)
  node_run v {cl = cl} run = run_node (inputs_at events v run) (cl.replicas v)

  abbrev prepended :
      Bool → List Effect → List Effect × Outcome (Replica S) → List Effect × Outcome (Replica S)
  prepended own effects (later, end) = ((if own then effects ++ later else later), end)

  prepended-In :
      (own : Bool) (effects : List Effect) (after : List Effect × Outcome (Replica S)) (e : Effect)
      → In after.0 e
      → In (prepended own effects after).0 e
  prepended-In true effects after e here = In-append_right effects after.0 e here
  prepended-In false effects after e here = here

  node_run-step :
      (v x : NodeId) (cl : Cluster S) {end : Cluster S} (input : ReplicaInput) (r' : Replica S)
      (effects : List Effect) (among : Among (cl.messages x) (events x) input)
      (is : handle_input (cl.replicas x) input ≡ done (r', effects))
      (later : ClusterSteps events
        (record {
          replicas = update x r' cl.replicas;
          messages = apply_effects effects cl.messages;
        })
        end)
      → node_run v (then_handles (handles x input r' effects among is) later)
        ≡ prepended (bytes_eq v x) effects (node_run v later)
  unfolding inputs_at run_node
  node_run-step v x cl input r' effects among is later = elim (Bool-cases (bytes_eq v x)) [
    | inl own ↦
        let here : handle_input (cl.replicas v) input ≡ done (r', effects) =
          subst (λ y. handle_input (cl.replicas y) input ≡ done (r', effects))
            (sym ((bytes_eq_iff v x).0 own)) is in
        rw (own, here) refl
    | inr other ↦ rw other refl
  ]

  -- The run of each node ends with the replica that the cluster has for it.
  pub node_run-ends :
      (v : NodeId) {cl end : Cluster S} (run : ClusterSteps events cl end)
      → (node_run v run).1 ≡ done (end.replicas v)
  unfolding inputs_at run_node
  node_run-ends v at_rest = refl
  node_run-ends v {cl} (then_handles (handles x input r' effects among is) later) =
      rw (node_run-step v x cl input r' effects among is later) (node_run-ends v later)

  -- A message that stands there at the end stood there at first, or some node sent it.
  pub sent-origin :
      (p : NodeId) (m : Message) {cl end : Cluster S} (run : ClusterSteps events cl end)
      → In (end.messages p) m
      → In (cl.messages p) m ⊎ ((v : NodeId) × (e : Effect) × In (node_run v run).0 e × Carries m e)
  sent-origin p m at_rest here = inl here
  sent-origin p m {cl} (then_handles (handles x input r' effects among is) later) here =
      elim (sent-origin p m later here) [
        | inl before ↦ elim (apply_effects-origin effects cl.messages p m before) [
          | inl old ↦ inl old
          | inr (e, stands, carried) ↦ inr (
            x,
            e,
            rw (node_run-step x x cl input r' effects among is later) (
                subst (λ own. In (prepended own effects (node_run x later)).0 e)
                  (sym (bytes_eq_refl x)) (In-append_left effects (node_run x later).0 e stands)),
            carried,
          )
        ]
        | inr (v, e, stands, carried) ↦ inr (
          v,
          e,
          rw (node_run-step v x cl input r' effects among is later)
              (prepended-In (bytes_eq v x) effects (node_run v later) e stands),
          carried,
        )
      ]

  pub messages-Within :
      (p : NodeId) {cl end : Cluster S}
      → ClusterSteps events cl end
      → Within (cl.messages p) (end.messages p)
  messages-Within p at_rest a here = here
  messages-Within p {cl} (then_handles (handles v input r' effects among is) later) a here =
      messages-Within p later a (apply_effects-Within effects cl.messages p a here)

  -- What a node handles was sent to it by the end.
  pub inputs_at-WasSent :
      (v : NodeId) {cl end : Cluster S} (run : ClusterSteps events cl end)
      → All (WasSent (end.messages v)) (inputs_at events v run)
  unfolding inputs_at
  inputs_at-WasSent v at_rest = tt
  inputs_at-WasSent v {cl} {end} (then_handles (handles x input r' effects among is) later) =
      elim (Bool-cases (bytes_eq v x)) [
        | inl own ↦
            let sent : Among (cl.messages v) (events v) input =
              subst (λ y. Among (cl.messages y) (events y) input) (sym ((bytes_eq_iff v x).0 own))
                among in
            rw own (
              Among-WasSent (cl.messages v) (end.messages v) (events v) input
                  (messages-Within v (then_handles (handles x input r' effects among is) later))
                  sent,
              inputs_at-WasSent v later,
            )
        | inr other ↦ rw other (inputs_at-WasSent v later)
      ]

  -- A node handles no more inputs than there are steps.
  pub inputs_at-le-steps_count :
      (v : NodeId) {cl end : Cluster S} (run : ClusterSteps events cl end)
      → length (inputs_at events v run) ≤ steps_count events run
  unfolding inputs_at steps_count
  inputs_at-le-steps_count v at_rest = omega arith
  inputs_at-le-steps_count v (then_handles (handles x input r' effects among is) later) =
      let ih = inputs_at-le-steps_count v later in
      elim (Bool-cases (bytes_eq v x)) [
        | inl own ↦ rw own (omega (arith, ih))
        | inr other ↦ rw other (omega (arith, ih))
      ]
