-- ===== src/Consensus/Agreement/Voters.antt =====
-- From the REPAIR-COMMITs that a replica holds to the nodes that sent them (`can_apply_repair` of
-- raspen/crates/consensus/src/repair.rs counts messages).
use raspen.Prelude.{
  ℕ, ◌≤◌, ◌≡◌, Bool, true, false, List, [], ◌∷◌, count_if, arith, Bool-cases, inl, inr,
}
use raspen.Prelude.HashSet
use raspen.Types.{NodeId, Message, Message-discrete, repair_commit}
use raspen.Consensus.Repair.{NodeId-discrete, commit_matches}
use raspen.Consensus.Agreement.Quorums.{count_if_mono, count_if-gain}

-- No message stands in the list twice, as in a HashSet.
abbrev pub IsDistinct : List Message → Type 0
IsDistinct [] = Unit
IsDistinct (m ∷ ms) = (HashSet.contains Message-discrete m ms ≡ false) × IsDistinct ms

-- The sender of a REPAIR-COMMIT is one of the nodes.
abbrev pub IsFrom : List NodeId → Message → Type 0
IsFrom nodes (repair_commit from _ _ _) = HashSet.contains NodeId-discrete from nodes ≡ true
IsFrom nodes _ = Unit

-- Every REPAIR-COMMIT of the list comes from one of the nodes.
abbrev pub AreFrom : List NodeId → List Message → Type 0
AreFrom nodes [] = Unit
AreFrom nodes (m ∷ ms) = IsFrom nodes m × AreFrom nodes ms

-- The node's REPAIR-COMMIT is in the list.
abbrev pub voted : (view round hist : ℕ) → List Message → NodeId → Bool
voted view round hist ms x = HashSet.contains Message-discrete (repair_commit x view round hist) ms

voted-cons :
    (view round hist : ℕ) (m : Message) (ms : List Message) (x : NodeId)
    → voted view round hist ms x ≡ true
    → voted view round hist (m ∷ ms) x ≡ true
unfolding HashSet.contains
voted-cons view round hist m ms x h = ground arith

voted_self :
    (view round hist : ℕ) (ms : List Message) (x : NodeId)
    → voted view round hist (repair_commit x view round hist ∷ ms) x ≡ true
unfolding HashSet.contains
voted_self view round hist ms x = ground arith

-- Each counted REPAIR-COMMIT has a voter of its own.
pub count_if-voted :
    (view round hist : ℕ) (nodes : List NodeId) (ms : List Message)
    → IsDistinct ms
    → AreFrom nodes ms
    → count_if (commit_matches view round hist) ms ≤ count_if (voted view round hist ms) nodes
unfolding count_if
count_if-voted view round hist nodes [] d f = omega arith
count_if-voted view round hist nodes (repair_commit x v r h ∷ ms) d f =
    let ih = count_if-voted view round hist nodes ms d.1 f.1 in
    let m = repair_commit x v r h in
    elim (Bool-cases (commit_matches view round hist m)) [
      | inl counts ↦
          let same_view : v ≡ view = ground arith in
          let same_round : r ≡ round = ground arith in
          let same_hist : h ≡ hist = ground arith in
          let new : voted view round hist ms x ≡ false =
            rw (← same_view, ← same_round, ← same_hist) d.0 in
          let here : voted view round hist (m ∷ ms) x ≡ true =
            rw (same_view, same_round, same_hist) (voted_self view round hist ms x) in
          let gain =
            count_if-gain NodeId-discrete (voted view round hist ms)
              (voted view round hist (m ∷ ms)) nodes x (voted-cons view round hist m ms) f.0 new
              here in
          ground (arith, ih, gain)
      | inr skips ↦
          let more =
            count_if_mono (voted view round hist ms) (voted view round hist (m ∷ ms)) nodes
              (voted-cons view round hist m ms) in
          ground (arith, ih, more)
    ]
count_if-voted view round hist nodes (m ∷ ms) d f =
    let ih = count_if-voted view round hist nodes ms d.1 f.1 in
    let more =
      count_if_mono (voted view round hist ms) (voted view round hist (m ∷ ms)) nodes
        (voted-cons view round hist m ms) in
    omega (arith, ih, more)
