-- ===== src/Consensus/Rounds/Order.antt =====
-- Rising rounds: the REPAIR-COMMITs in a list of effects (the handlers of
-- raspen/crates/consensus/src/repair.rs return such lists).
use raspen.Prelude.{
  ℕ, suc, zero, ◌+◌, ◌≤◌, ◌≡◌, refl, ap, List, [], ◌∷◌, ◌++◌, some, get_elem?, arith,
}
use raspen.Types.{NodeId, repair_commit, Effect, broadcast}

-- The rounds of the REPAIR-COMMITs among the effects rise, from `low` on.
abbrev pub CommitsFrom : ℕ → List Effect → Type 0
CommitsFrom low [] = Unit
CommitsFrom low (broadcast (repair_commit _ _ round _) ∷ es) =
    (low ≤ round) × CommitsFrom (round + 1) es
CommitsFrom low (_ ∷ es) = CommitsFrom low es

-- They rise from `low` on and stay below `high`.
abbrev pub CommitsIn : ℕ → ℕ → List Effect → Type 0
CommitsIn low high [] = low ≤ high
CommitsIn low high (broadcast (repair_commit _ _ round _) ∷ es) =
    (low ≤ round) × CommitsIn (round + 1) high es
CommitsIn low high (_ ∷ es) = CommitsIn low high es

CommitsIn-weaken :
    (low mid high : ℕ) (es : List Effect)
    → low ≤ mid
    → CommitsIn mid high es
    → CommitsIn low high es
CommitsIn-weaken low mid high [] h c = omega arith
CommitsIn-weaken low mid high (broadcast (repair_commit _ _ round _) ∷ es) h c = (omega arith, c.1)
CommitsIn-weaken low mid high (_ ∷ es) h c = CommitsIn-weaken low mid high es h c

pub CommitsIn-append :
    (low mid high : ℕ) (es fs : List Effect)
    → CommitsIn low mid es
    → CommitsIn mid high fs
    → CommitsIn low high (es ++ fs)
CommitsIn-append low mid high [] fs c d = CommitsIn-weaken low mid high fs c d
CommitsIn-append low mid high (broadcast (repair_commit _ _ round _) ∷ es) fs c d =
    (c.0, CommitsIn-append (round + 1) mid high es fs c.1 d)
CommitsIn-append low mid high (_ ∷ es) fs c d = CommitsIn-append low mid high es fs c d

CommitsFrom-weaken :
    (es : List Effect) (low mid : ℕ) → low ≤ mid → CommitsFrom mid es → CommitsFrom low es
CommitsFrom-weaken [] low mid h c = tt
CommitsFrom-weaken (broadcast (repair_commit _ _ round _) ∷ es) low mid h c = (omega arith, c.1)
CommitsFrom-weaken (_ ∷ es) low mid h c = CommitsFrom-weaken es low mid h c

pub CommitsFrom-append :
    (low mid : ℕ) (es fs : List Effect)
    → CommitsIn low mid es
    → CommitsFrom mid fs
    → CommitsFrom low (es ++ fs)
CommitsFrom-append low mid [] fs c d = CommitsFrom-weaken fs low mid c d
CommitsFrom-append low mid (broadcast (repair_commit _ _ round _) ∷ es) fs c d =
    (c.0, CommitsFrom-append (round + 1) mid es fs c.1 d)
CommitsFrom-append low mid (_ ∷ es) fs c d = CommitsFrom-append low mid es fs c d

-- A REPAIR-COMMIT of the list has a round from `low` on.
CommitsFrom-ge :
    (low i : ℕ) (es : List Effect) (from : NodeId) (view round hist : ℕ)
    → CommitsFrom low es
    → get_elem? es i ≡ some (broadcast (repair_commit from view round hist))
    → low ≤ round
CommitsFrom-ge low i [] from view round hist c e = cc
CommitsFrom-ge low zero (broadcast (repair_commit _ _ k _) ∷ es) from view round hist c e =
    ground arith
CommitsFrom-ge low (suc i) (broadcast (repair_commit _ _ k _) ∷ es) from view round hist c e =
    omega (arith, CommitsFrom-ge (k + 1) i es from view round hist c.1 e)
CommitsFrom-ge low zero (_ ∷ es) from view round hist c e = cc
CommitsFrom-ge low (suc i) (_ ∷ es) from view round hist c e =
    CommitsFrom-ge low i es from view round hist c e

-- Two REPAIR-COMMITs of the list with one round stand at one place.
pub CommitsFrom-unique :
    (low i j : ℕ) (es : List Effect) (from from' : NodeId) (view view' round hist hist' : ℕ)
    → CommitsFrom low es
    → get_elem? es i ≡ some (broadcast (repair_commit from view round hist))
    → get_elem? es j ≡ some (broadcast (repair_commit from' view' round hist'))
    → i ≡ j
CommitsFrom-unique low i j [] f f' v v' round h h' c p q = cc
CommitsFrom-unique low zero zero (e ∷ es) f f' v v' round h h' c p q = refl
CommitsFrom-unique low zero (suc j) (broadcast (repair_commit _ _ k _) ∷ es) f f' v v' round h h' c
      p q =
    absurd (ground (arith, CommitsFrom-ge (k + 1) j es f' v' round h' c.1))
CommitsFrom-unique low (suc i) zero (broadcast (repair_commit _ _ k _) ∷ es) f f' v v' round h h' c
      p q =
    absurd (ground (arith, CommitsFrom-ge (k + 1) i es f v round h c.1))
CommitsFrom-unique low (suc i) (suc j) (broadcast (repair_commit _ _ k _) ∷ es) f f' v v' round h h'
      c p q =
    ap suc (CommitsFrom-unique (k + 1) i j es f f' v v' round h h' c.1 p q)
CommitsFrom-unique low zero (suc j) (_ ∷ es) f f' v v' round h h' c p q = cc
CommitsFrom-unique low (suc i) zero (_ ∷ es) f f' v v' round h h' c p q = cc
CommitsFrom-unique low (suc i) (suc j) (_ ∷ es) f f' v v' round h h' c p q =
    ap suc (CommitsFrom-unique low i j es f f' v v' round h h' c p q)
