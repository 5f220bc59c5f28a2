-- ===== src/Cluster/Agreement.antt =====
-- Agreement of the replicas of a cluster on the merged history of a round
-- (raspen/crates/consensus/src/repair.rs).
use raspen.Prelude.{
  ℕ, ◌+◌, ◌<◌, ◌≡◌, refl, sym, subst, Bool, true, false, inl, inr, some, List, [], ◌∷◌, length,
  get_elem?, count_if, All, u64_mod, arith,
}
use raspen.Types.{NodeId, Message, repair_commit, repair_done, broadcast, Event, Config, KvStoreOps}
use raspen.Consensus.Replica.{Replica, initial}
use raspen.Consensus.Runs.{run_node-Frame}
use raspen.Consensus.Agreement.{repair_agreement, Broadcasts}
use raspen.Consensus.Agreement.Voters.{AreFrom, IsFrom, voted}
use raspen.Spec.Steps.{In}
use raspen.Cluster.Held.{All-In}
use raspen.Cluster.{Cluster, started, ClusterSteps, steps_count, inputs_at}
use raspen.Cluster.Projection.{
  node_run, node_run-ends, sent-origin, inputs_at-WasSent, inputs_at-le-steps_count,
}
use raspen.Cluster.Signed.{
  signer, IsReply, In-get_elem?, contains-In, run_node-CommitsSent, effect-signer,
}

AreFrom-In :
    (nodes : List NodeId) (ms : List Message) (m : Message)
    → AreFrom nodes ms
    → In ms m
    → IsFrom nodes m
AreFrom-In nodes [] m from here = absurd here
AreFrom-In nodes (x ∷ ms) m from (inl is) = subst (IsFrom nodes) is from.0
AreFrom-In nodes (x ∷ ms) m from (inr here) = AreFrom-In nodes ms m from.1 here

AreFrom-All :
    (nodes : List NodeId) (messages held : List Message)
    → AreFrom nodes messages
    → All (In messages) held
    → AreFrom nodes held
AreFrom-All nodes messages [] from within = tt
AreFrom-All nodes messages (m ∷ held) from within =
    (AreFrom-In nodes messages m from within.0, AreFrom-All nodes messages held from within.1)

-- What stands there at first is in the name of a Byzantine node, or of nobody.
abbrev pub IsAuthentic : (NodeId → List Message) → (NodeId → Bool) → Type 0
IsAuthentic messages byzantine =
    (p : NodeId) (m : Message) (x : NodeId)
    → In (messages p) m
    → signer m ≡ some x
    → byzantine x ≡ true

module _ {S : Type 0} ⦃ops : KvStoreOps S⦄ (c : Config) (events : NodeId → List Event)
    (store : NodeId → S) (messages : NodeId → List Message) (byzantine : NodeId → Bool) where
  abbrev pub start : NodeId → Replica S
  start x = initial c x (store x)

  -- What was sent in the name of a node that is not Byzantine was broadcast by it.
  pub spoken :
      {end : Cluster S} (run : ClusterSteps events (started c store messages) end) (p x : NodeId)
      (m : Message)
      → IsAuthentic messages byzantine
      → byzantine x ≡ false
      → signer m ≡ some x
      → (IsReply m → ⊥)
      → In (end.messages p) m
      → (i : ℕ) × (get_elem? (node_run events x run).0 i ≡ some (broadcast m))
  spoken {end} run p x m authentic honest is not_reply here =
      elim (sent-origin events p m run here) [
        | inl first ↦ let liar : byzantine x ≡ true = authentic p m x first is in cc
        | inr (v, e, stands, carried) ↦
            let inputs = inputs_at events v run in
            let ends = node_run-ends events v run in
            let frame = run_node-Frame inputs (start v) (end.replicas v) ends in
            let sent =
              run_node-CommitsSent (end.messages v) inputs (start v) (end.replicas v)
                (inputs_at-WasSent events v run) ends in
            let (same, own) =
              effect-signer v x m (node_run events v run).0 e stands frame.emitted sent.1 carried is
                not_reply in
            subst (λ y. (i : ℕ) × (get_elem? (node_run events y run).0 i ≡ some (broadcast m)))
              (sym same) (In-get_elem? (node_run events v run).0 (broadcast m) own)
      ]

  -- The REPAIR-COMMITs that a node holds at the end were sent to it.
  commits_held :
      {end : Cluster S} (run : ClusterSteps events (started c store messages) end) (a : NodeId)
      → All (In (end.messages a)) (end.replicas a).state.repair_commit_msgs
  commits_held {end} run a =
      (run_node-CommitsSent (end.messages a) (inputs_at events a run) (start a) (end.replicas a)
          (inputs_at-WasSent events a run) (node_run-ends events a run)).0
        tt

  commit_spoken :
      {end : Cluster S} (run : ClusterSteps events (started c store messages) end) (a x : NodeId)
      (view round hist : ℕ)
      → IsAuthentic messages byzantine
      → byzantine x ≡ false
      → voted view round hist (end.replicas a).state.repair_commit_msgs x ≡ true
      → Broadcasts (inputs_at events x run) (start x) x view round hist
  commit_spoken {end} run a x view round hist authentic honest held =
      let m = repair_commit x view round hist in
      let votes = (end.replicas a).state.repair_commit_msgs in
      spoken run a x m authentic honest refl (λ reply. reply)
        (All-In (In (end.messages a)) votes m (commits_held run a) (contains-In m votes held))

  -- Two replicas of a cluster that end a round of REPAIR agree on its history. The cluster starts with
  -- replicas as `Replica::new` makes them and with messages that are in the name of Byzantine nodes or
  -- of nobody, and makes fewer than 2^64 steps, in each of which one replica handles a message that was
  -- sent to it, or an event, in any order, any number of times or never. Two quorums exceed together
  -- the number of nodes and of Byzantine nodes, and the REPAIR-COMMITs that were sent to `a` and to `b`
  -- by the end come from the nodes. If REPAIR-DONEs of one round in the names of `a` and `b`, which are
  -- not Byzantine, were sent to any nodes, the two have the same view and the same history.
  pub cluster_agreement :
      (nodes : List NodeId) (end : Cluster S)
      (run : ClusterSteps events (started c store messages) end) (a b p q : NodeId)
      (view view' round hist hist' : ℕ)
      → IsAuthentic messages byzantine
      → byzantine a ≡ false
      → byzantine b ≡ false
      → AreFrom nodes (end.messages a)
      → AreFrom nodes (end.messages b)
      → length nodes + count_if byzantine nodes < c.byz_quorum + c.byz_quorum
      → steps_count events run < u64_mod
      → In (end.messages p) (repair_done a view round hist)
      → In (end.messages q) (repair_done b view' round hist')
      → (view ≡ view') × (hist ≡ hist')
  cluster_agreement nodes end run a b p q view view' round hist hist' authentic honest_a honest_b
        from_a from_b quorums short done_a done_b =
      let (i, at_i) =
        spoken run p a (repair_done a view round hist) authentic honest_a refl (λ reply. reply)
          done_a in
      let (j, at_j) =
        spoken run q b (repair_done b view' round hist') authentic honest_b refl (λ reply. reply)
          done_b in
      repair_agreement nodes byzantine (λ x. inputs_at events x run) start a b (end.replicas a)
        (end.replicas b) i j a b view view' round hist hist' (λ x honest. refl)
        (λ x honest. omega (arith, inputs_at-le-steps_count events x run)) quorums
        (node_run-ends events a run) (node_run-ends events b run) tt tt
        (AreFrom-All nodes (end.messages a) (end.replicas a).state.repair_commit_msgs from_a
          (commits_held run a))
        (AreFrom-All nodes (end.messages b) (end.replicas b).state.repair_commit_msgs from_b
          (commits_held run b))
        (λ x honest held. commit_spoken run a x view round hist authentic honest held)
        (λ x honest held. commit_spoken run b x view' round hist' authentic honest held) at_i at_j
