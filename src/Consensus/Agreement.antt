-- ===== src/Consensus/Agreement.antt =====
-- Agreement of the nodes on the merged history of a round (`can_apply_repair` and
-- `handle_apply_repair` of raspen/crates/consensus/src/repair.rs, over runs of node.rs).
pub mod Quorums
pub mod Voters
pub mod Distinct
use raspen.Prelude.{
  ℕ, zero, suc, ◌+◌, ◌≤◌, ◌<◌, ◌≡◌, refl, sym, ap, ◌∙◌, Bool, true, false, ◌&&◌, Option, none, some,
  List, [], ◌∷◌, get_elem?, length, All, count_if, done, arith, u64_mod,
}
use raspen.Types.{NodeId, Message, repair_commit, repair_done, Effect, broadcast, KvStoreOps}
use raspen.Consensus.Replica.{Replica}
use raspen.Consensus.Repair.{commit_matches}
use raspen.Consensus.Node.{ReplicaInput, run_node}
use raspen.Consensus.PhaseInvariant.{InRepairAgrees}
use raspen.Consensus.Backing.Evidence.{IsBacked}
use raspen.Consensus.CommitOnce.{commit_once}
use raspen.Consensus.Runs.{run_node-Backs}
use raspen.Consensus.Agreement.Distinct.{run_node-IsDistinct}
use raspen.Consensus.Agreement.Quorums.{count_if-extra, count_if-both}
use raspen.Consensus.Agreement.Voters.{IsDistinct, AreFrom, voted, count_if-voted}

pub All-get_elem? :
    {A : Type 0}
    → (P : A → Type 0) (xs : List A) (i : ℕ) (x : A) → All P xs
    → get_elem? xs i ≡ some x
    → P x
All-get_elem? P [] i x all e = cc
All-get_elem? P (y ∷ xs) zero x all e = ground (arith, all.0)
All-get_elem? P (y ∷ xs) (suc i) x all e = All-get_elem? P xs i x all.1 e

-- Two quorums of voters share a voter that is not Byzantine.
pub honest_voter :
    (byzantine p q : NodeId → Bool) (nodes : List NodeId)
    → length nodes + count_if byzantine nodes < count_if p nodes + count_if q nodes
    → (x : NodeId) × (byzantine x ≡ false) × (p x ≡ true) × (q x ≡ true)
honest_voter byzantine p q nodes h =
    let (x, both, honest) =
      count_if-extra byzantine (λ x. p x && q x) nodes (omega (arith, count_if-both p q nodes)) in
    (x, honest, ground arith, ground arith)

same_effect :
    (es : List Effect) (i j : ℕ) (e f : Effect)
    → get_elem? es i ≡ some e
    → get_elem? es j ≡ some f
    → i ≡ j
    → e ≡ f
same_effect es i j e f p q same = cc

module _ {S : Type 0} ⦃ops : KvStoreOps S⦄ where
  -- The node broadcasts this REPAIR-COMMIT in its run.
  abbrev pub Broadcasts : List ReplicaInput → Replica S → NodeId → (view round hist : ℕ) → Type 0
  Broadcasts inputs r x view round hist =
      (i : ℕ) × (get_elem? (run_node inputs r).0 i
        ≡ some (broadcast (repair_commit x view round hist)))

  -- What a REPAIR-DONE in a run shows of the replica at its end.
  done_quorum :
      (inputs : List ReplicaInput) (r r' : Replica S) (i : ℕ) (from : NodeId) (view round hist : ℕ)
      → (run_node inputs r).1 ≡ done r'
      → get_elem? (run_node inputs r).0 i ≡ some (broadcast (repair_done from view round hist))
      → r.config.byz_quorum ≤ count_if (commit_matches view round hist) r'.state.repair_commit_msgs
  done_quorum inputs r r' i from view round hist end e =
      All-get_elem? (IsBacked r.config r') (run_node inputs r).0 i
        (broadcast (repair_done from view round hist)) (run_node-Backs inputs r r' end).backed e

  commits_agree :
      (inputs : List ReplicaInput) (r : Replica S) (x : NodeId) (view view' round hist hist' : ℕ)
      → InRepairAgrees r
      → r.state.round + length inputs < u64_mod
      → Broadcasts inputs r x view round hist
      → Broadcasts inputs r x view' round hist'
      → (view ≡ view') × (hist ≡ hist')
  commits_agree inputs r x view view' round hist hist' h small (i, p) (j, q) =
      let same = commit_once inputs r i j x x view view' round hist hist' h small p q in
      let equal =
        same_effect (run_node inputs r).0 i j (broadcast (repair_commit x view round hist))
          (broadcast (repair_commit x view' round hist')) p q same in
      ground arith

  -- Nodes agree on the history of a round. Each node `x` runs from `start x` over `inputs x`; those
  -- that are not Byzantine start with `in_repair` in agreement with the phase, and their rounds stay
  -- below 2^64. The quorums of two nodes `a` and `b` exceed together the number of nodes and of
  -- Byzantine nodes, and both start with distinct REPAIR-COMMITs and end without a panic. Of the
  -- REPAIR-COMMITs that they hold at the end, all come from the nodes, and those counted in the name
  -- of a node that is not Byzantine were broadcast by it. If both broadcast a REPAIR-DONE of one
  -- round, the two have the same view and the same history.
  pub repair_agreement :
      (nodes : List NodeId) (byzantine : NodeId → Bool)
      → (inputs : NodeId → List ReplicaInput) (start : NodeId → Replica S)
      → (a b : NodeId) (a' b' : Replica S)
      → (i j : ℕ) (from from' : NodeId) (view view' round hist hist' : ℕ)
      → ((x : NodeId) → byzantine x ≡ false → InRepairAgrees (start x))
      → ((x : NodeId) → byzantine x ≡ false → (start x).state.round + length (inputs x) < u64_mod)
      → length nodes + count_if byzantine nodes
        < (start a).config.byz_quorum + (start b).config.byz_quorum
      → (run_node (inputs a) (start a)).1 ≡ done a'
      → (run_node (inputs b) (start b)).1 ≡ done b'
      → IsDistinct (start a).state.repair_commit_msgs
      → IsDistinct (start b).state.repair_commit_msgs
      → AreFrom nodes a'.state.repair_commit_msgs
      → AreFrom nodes b'.state.repair_commit_msgs
      → ((x : NodeId)
          → byzantine x ≡ false
          → voted view round hist a'.state.repair_commit_msgs x ≡ true
          → Broadcasts (inputs x) (start x) x view round hist)
      → ((x : NodeId)
          → byzantine x ≡ false
          → voted view' round hist' b'.state.repair_commit_msgs x ≡ true
          → Broadcasts (inputs x) (start x) x view' round hist')
      → get_elem? (run_node (inputs a) (start a)).0 i
        ≡ some (broadcast (repair_done from view round hist))
      → get_elem? (run_node (inputs b) (start b)).0 j
        ≡ some (broadcast (repair_done from' view' round hist'))
      → (view ≡ view') × (hist ≡ hist')
  repair_agreement nodes byzantine inputs start a b a' b' i j from from' view view' round hist hist'
        sound small quorums end_a end_b set_a set_b from_a from_b sent_a sent_b done_a done_b =
      let votes = a'.state.repair_commit_msgs in
      let votes' = b'.state.repair_commit_msgs in
      let many = done_quorum (inputs a) (start a) a' i from view round hist end_a done_a in
      let many' = done_quorum (inputs b) (start b) b' j from' view' round hist' end_b done_b in
      let distinct = run_node-IsDistinct (inputs a) (start a) a' end_a set_a in
      let distinct' = run_node-IsDistinct (inputs b) (start b) b' end_b set_b in
      let voters = count_if-voted view round hist nodes votes distinct from_a in
      let voters' = count_if-voted view' round hist' nodes votes' distinct' from_b in
      let (x, honest, in_a, in_b) =
        honest_voter byzantine (voted view round hist votes) (voted view' round hist' votes') nodes
          (omega (arith, many, many', voters, voters')) in
      commits_agree (inputs x) (start x) x view view' round hist hist' (sound x honest)
        (small x honest) (sent_a x honest in_a) (sent_b x honest in_b)
