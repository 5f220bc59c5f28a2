-- ===== src/Consensus/Keeps.antt =====
-- Predicates of a replica that a block of `process_message` or `handle_event` keeps
-- (raspen/crates/consensus/src/replica.rs).
use raspen.Prelude.{List, [], ◌∷◌, ◌++◌, Returns, Returns-and_then, All}
use raspen.Consensus.Replica.{Replica, Handled}
use raspen.Consensus.Dispatch.{run_blocks}

module _ {S : Type 0} where
  -- The block returns, and keeps the predicate.
  abbrev pub Keeps : (Replica S → Type 0) → (Replica S → Handled S) → Type 0
  Keeps P block = (r : Replica S) → P r → Returns (λ x. P x.0) (block r)

  -- What comes of a block and the blocks after it.
  pub run_blocks-then :
      (P Q : Replica S → Type 0) (block : Replica S → Handled S)
      (blocks : List (Replica S → Handled S)) (r : Replica S)
      → Returns (λ x. P x.0) (block r)
      → ((a : Replica S) → P a → Returns (λ x. Q x.0) (run_blocks blocks a))
      → Returns (λ x. Q x.0) (run_blocks (block ∷ blocks) r)
  unfolding run_blocks
  run_blocks-then P Q block blocks r h k =
      Returns-and_then (λ x. P x.0) (λ x. Q x.0) (block r) _ h
        λ a p.
          Returns-and_then (λ x. Q x.0) (λ x. Q x.0) (run_blocks blocks a.0) _ (k a.0 p) (λ c q. q)

  -- What comes of blocks that run after blocks that keep a predicate.
  pub run_blocks-after :
      (P Q : Replica S → Type 0) (first second : List (Replica S → Handled S))
      → All (Keeps P) first
      → ((a : Replica S) → P a → Returns (λ x. Q x.0) (run_blocks second a))
      → (r : Replica S) → P r
      → Returns (λ x. Q x.0) (run_blocks (first ++ second) r)
  run_blocks-after P Q [] second h k r p = k r p
  run_blocks-after P Q (block ∷ first) second h k r p =
      run_blocks-then P Q block (first ++ second) r (h.0 r p)
        (run_blocks-after P Q first second h.1 k)

  -- Blocks that keep a predicate keep it one after another.
  pub run_blocks-Keeps :
      (P : Replica S → Type 0) (blocks : List (Replica S → Handled S))
      → All (Keeps P) blocks
      → Keeps P (run_blocks blocks)
  unfolding run_blocks
  run_blocks-Keeps P [] h r p = p
  run_blocks-Keeps P (block ∷ blocks) h r p =
      run_blocks-then P P block blocks r (h.0 r p) (run_blocks-Keeps P blocks h.1)
