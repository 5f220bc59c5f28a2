-- ===== src/Consensus/Machine.antt =====
-- A state machine that is fed one input after another (the loop of `Node::start` in
-- raspen/crates/consensus/src/node.rs, without its channel).
use raspen.Prelude.{
  ◌≡◌, refl, sym, ap, ◌∙◌, List, [], ◌∷◌, ◌++◌, append_assoc, append-nil, Outcome, done, panic,
  Error, done-injective,
}
use raspen.Types.{Effect}
use raspen.Consensus.Node.{ReplicaInput}
use raspen.Consensus.Transport.{StateMachine, replica_machine}
use raspen.Consensus.Actor.{handle}

module _ {M : Type 0} ⦃machine : StateMachine M⦄ where
  -- The inputs one after another, from a state: the effects, and the state at the end or the panic.
  abbrev pub after_handled :
      (M → List Effect × Outcome M) → Outcome (M × List Effect) → List Effect × Outcome M
  after_handled rest (panic e) = ([], panic e)
  after_handled rest (done (m, effects)) = let (later, end) = rest m in (effects ++ later, end)

  unfoldable pub run_machine : List ReplicaInput → M → List Effect × Outcome M
  run_machine [] m = ([], done m)
  run_machine (input ∷ inputs) m = after_handled (run_machine inputs) (handle m input)

  -- One more input at the end.
  abbrev pub one_more : List Effect × Outcome M → ReplicaInput → List Effect × Outcome M
  one_more (effects, panic e) input = (effects, panic e)
  one_more (effects, done m) input =
      let (es, end) = after_handled (λ m'. ([], done m')) (handle m input) in (effects ++ es, end)

  one_more-shift :
      (es : List Effect) (run : List Effect × Outcome M) (input : ReplicaInput)
      → (es ++ (one_more run input).0, (one_more run input).1) ≡ one_more (es ++ run.0, run.1) input
  one_more-shift es (effects, panic e) input = refl
  one_more-shift es (effects, done m) input =
      let last = after_handled (λ m'. ([], done m')) (handle m input) in
      ap (λ (l : List Effect). (l, last.1)) (sym (append_assoc es effects last.0))

  after_one_more :
      (inputs : List ReplicaInput) (input : ReplicaInput) (result : Outcome (M × List Effect))
      → ((m : M) → run_machine (inputs ++ input ∷ []) m ≡ one_more (run_machine inputs m) input)
      → after_handled (run_machine (inputs ++ input ∷ [])) result
        ≡ one_more (after_handled (run_machine inputs) result) input
  after_one_more inputs input (panic e) ih = refl
  after_one_more inputs input (done (m, es)) ih =
      ap (λ (r : List Effect × Outcome M). (es ++ r.0, r.1)) (ih m)
      ∙ one_more-shift es (run_machine inputs m) input

  pub one_more-done :
      (run : List Effect × Outcome M) (input : ReplicaInput) (m m' : M) (es : List Effect)
      → run.1 ≡ done m
      → handle m input ≡ done (m', es)
      → one_more run input ≡ (run.0 ++ es, done m')
  one_more-done (effects, panic e) input m m' es h k = cc
  one_more-done (effects, done m1) input m m' es h k =
      let same : m1 ≡ m = done-injective h in
      rw (same, k) (ap (λ (l : List Effect). (effects ++ l, done m')) (append-nil es))

  pub one_more-panic :
      (run : List Effect × Outcome M) (input : ReplicaInput) (m : M) (e : Error)
      → run.1 ≡ done m
      → handle m input ≡ panic e
      → one_more run input ≡ (run.0, panic e)
  one_more-panic (effects, panic e') input m e h k = cc
  one_more-panic (effects, done m1) input m e h k =
      let same : m1 ≡ m = done-injective h in
      rw (same, k) (ap (λ (l : List Effect). (l, panic e)) (append-nil effects))

  pub run_machine-snoc :
      (inputs : List ReplicaInput) (input : ReplicaInput) (m : M)
      → run_machine (inputs ++ input ∷ []) m ≡ one_more (run_machine inputs m) input
  unfolding run_machine
  run_machine-snoc [] input m = refl
  run_machine-snoc (x ∷ inputs) input m =
      after_one_more inputs input (handle m x) (run_machine-snoc inputs input)
