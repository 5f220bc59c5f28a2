-- ===== src/Consensus/Halves.antt =====
-- A run of blocks of `process_message` (raspen/crates/consensus/src/replica.rs), cut in two.
use raspen.Prelude.{
  ◌≡◌, refl, sym, ap, ◌∙◌, append-nil, append_assoc, arith, List, [], ◌∷◌, ◌++◌, done,
  and_then-eq-done, done-injective,
}
use raspen.Types.{Effect}
use raspen.Consensus.Replica.{Replica, Handled}
use raspen.Consensus.Dispatch.{run_blocks}

module _ {S : Type 0} where
  -- A run of blocks, cut in two.
  pub record Halves (first second : List (Replica S → Handled S)) (r r' : Replica S)
      (effects : List Effect) : Type 0 where
    pub middle : Replica S
    pub early : List Effect
    pub late : List Effect
    pub front : run_blocks first r ≡ done (middle, early)
    pub back : run_blocks second middle ≡ done (r', late)
    pub in_order : effects ≡ early ++ late

  run_blocks-cons :
      (block : Replica S → Handled S) (blocks : List (Replica S → Handled S))
      → (r a b : Replica S) (es fs : List Effect) → block r ≡ done (a, es)
      → run_blocks blocks a ≡ done (b, fs)
      → run_blocks (block ∷ blocks) r ≡ done (b, es ++ fs)
  unfolding run_blocks
  run_blocks-cons block blocks r a b es fs here there = ground arith

  pub run_blocks-one :
      (block : Replica S → Handled S) (r r' : Replica S) (effects : List Effect)
      → run_blocks (block ∷ []) r ≡ done (r', effects)
      → block r ≡ done (r', effects)
  unfolding run_blocks
  run_blocks-one block r r' effects e =
      let (a, here, last) = and_then-eq-done (block r) _ e in
      here ∙ ap (λ (l : List Effect). done (a.0, l)) (sym (append-nil a.1)) ∙ last

  pub run_blocks-Halves :
      (first second : List (Replica S → Handled S)) (r r' : Replica S) (effects : List Effect)
      → run_blocks (first ++ second) r ≡ done (r', effects)
      → Halves first second r r' effects
  unfolding run_blocks
  run_blocks-Halves [] second r r' effects e = record {
    middle = r;
    early = [];
    late = effects;
    front = refl;
    back = e;
    in_order = refl;
  }
  run_blocks-Halves (block ∷ first) second r r' effects e =
      let (a, here, rest) = and_then-eq-done (block r) _ e in
      let (b, there, last) = and_then-eq-done (run_blocks (first ++ second) a.0) _ rest in
      let h = run_blocks-Halves first second a.0 b.0 b.1 there in
      record {
        middle = h.middle;
        early = a.1 ++ h.early;
        late = h.late;
        front = run_blocks-cons block first r a.0 h.middle a.1 h.early here h.front;
        back =
            h.back ∙ ap (λ (x : Replica S). done (x, h.late)) (ap (λ x. x.0) (done-injective last));
        in_order =
            sym (ap (λ x. x.1) (done-injective last))
            ∙ ap (λ (l : List Effect). a.1 ++ l) h.in_order
            ∙ sym (append_assoc a.1 h.early h.late);
      }
