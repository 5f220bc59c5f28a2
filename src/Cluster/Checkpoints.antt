-- ===== src/Cluster/Checkpoints.antt =====
-- Agreement of the replicas of a cluster on a checkpoint
-- (raspen/crates/consensus/src/checkpoint.rs).
use raspen.Prelude.{
  ℕ, ◌+◌, ◌<◌, ◌≤◌, ◌≡◌, refl, subst, Bool, true, false, inl, inr, Option, some, List, [], ◌∷◌,
  length, count_if, filter_map, Option-cases, arith, bytes_eq, bytes_eq_iff,
}
use raspen.Prelude.HashSet
use raspen.Prelude.HashSet.Size.{Distinct, Within, length-collect}
use raspen.Types.{NodeId, Hash, Message, sync, checkpoint, broadcast, Event, Config, KvStoreOps}
use raspen.Consensus.Checkpoint.{sync_matches}
use raspen.Consensus.Repair.{NodeId-discrete}
use raspen.Consensus.Backing.Evidence.{IsBacked}
use raspen.Consensus.Node.{run_node}
use raspen.Consensus.Runs.{run_node-Backs}
use raspen.Consensus.Agreement.{All-get_elem?, honest_voter}
use raspen.Spec.Senders.{consistent_sync, sync_sender}
use raspen.Spec.Steps.{In}
use raspen.Cluster.Held.{IsHeld}
use raspen.Cluster.Counts.{OneEach, count_if-le-senders, contains-filter_map}
use raspen.Cluster.Held.{All-In, OneEach-within}
use raspen.Cluster.Senders.{sync_matches-sender, consistent_sync-sender}
use raspen.Cluster.{Cluster, started, ClusterSteps, inputs_at}
use raspen.Cluster.Projection.{node_run-ends, inputs_at-WasSent}
use raspen.Cluster.Synced.{run_node-SyncsSent}
use raspen.Cluster.Agreement.{IsAuthentic, spoken, start}

-- Every SYNC of the round and index comes from one of the nodes.
abbrev pub SyncsFrom : (round log_idx : ℕ) → List NodeId → List Message → Type 0
SyncsFrom round log_idx nodes messages =
    (m : Message) (x : NodeId)
    → In messages m
    → sync_sender round log_idx m ≡ some x
    → HashSet.contains NodeId-discrete x nodes ≡ true

filter_map-Within :
    (f : Message → Option NodeId) (nodes : List NodeId) (ms : List Message)
    → ((m : Message) (x : NodeId)
        → In ms m
        → f m ≡ some x
        → HashSet.contains NodeId-discrete x nodes ≡ true)
    → Within NodeId-discrete nodes (filter_map f ms)
unfolding filter_map
filter_map-Within f nodes [] from = tt
filter_map-Within f nodes (m ∷ ms) from =
    let ih = filter_map-Within f nodes ms (λ x a here is. from x a (inr here) is) in
    elim (Option-cases (f m)) [
      | inl idle ↦ rw (idle, filter_map) ih
      | inr (a, is) ↦ rw (is, filter_map) (from m a (inl refl) is, ih)
    ]

-- A consistent SYNC is one of the round, index and hash.
consistent_sync-determines :
    (round log_idx : ℕ) (log_hash : Hash) (m : Message) (x : NodeId)
    → consistent_sync round log_idx log_hash m ≡ some x
    → (eta : ℕ) × (m ≡ sync x round log_idx log_hash eta)
consistent_sync-determines round log_idx log_hash (sync from r li lh eta) x is =
    let same_round : r ≡ round = ground arith in
    let same_idx : li ≡ log_idx = ground arith in
    let equal : bytes_eq lh log_hash ≡ true = ground arith in
    let same_hash : lh ≡ log_hash = (bytes_eq_iff lh log_hash).0 equal in
    let same_sender : from ≡ x = ground arith in
    (eta, rw (same_round, same_idx, same_hash, same_sender) refl)
consistent_sync-determines round log_idx log_hash _ x is = cc

-- The node sent a SYNC of the round, index and hash.
abbrev synced : (round log_idx : ℕ) → Hash → List Message → NodeId → Bool
synced round log_idx log_hash messages x =
    HashSet.contains NodeId-discrete x
      (filter_map (consistent_sync round log_idx log_hash) messages)

-- Each counted SYNC has a node of its own.
count_if-synced :
    (round log_idx : ℕ) (log_hash : Hash) (nodes : List NodeId) (messages held : List Message)
    → Distinct NodeId-discrete nodes
    → OneEach (sync_sender round log_idx) messages
    → SyncsFrom round log_idx nodes messages
    → IsHeld messages held
    → count_if (sync_matches round log_idx log_hash) held
      ≤ count_if (synced round log_idx log_hash held) nodes
count_if-synced round log_idx log_hash nodes messages held distinct one from h =
    let f = consistent_sync round log_idx log_hash in
    let within : Within NodeId-discrete nodes (filter_map f held) =
      filter_map-Within f nodes held (λ m x here is.
        from m x (All-In (In messages) held m h.within here)
          (consistent_sync-sender round log_idx log_hash m x is)) in
    let counted =
      count_if-le-senders f (sync_matches round log_idx log_hash) held
        (sync_matches-sender round log_idx log_hash)
        (OneEach-within f messages held
          (λ m m' x here here' is is'.
            one m m' x here here' (consistent_sync-sender round log_idx log_hash m x is)
              (consistent_sync-sender round log_idx log_hash m' x is'))
          h.within)
        h.distinct in
    subst (λ k. count_if (sync_matches round log_idx log_hash) held ≤ k)
      (length-collect NodeId-discrete (filter_map f held) nodes distinct within) counted

-- Who is counted sent such a SYNC.
synced-In :
    (round log_idx : ℕ) (log_hash : Hash) (messages held : List Message) (x : NodeId)
    → IsHeld messages held
    → synced round log_idx log_hash held x ≡ true
    → (eta : ℕ) × In messages (sync x round log_idx log_hash eta)
synced-In round log_idx log_hash messages held x h counted =
    let (m, here, known, is) =
      contains-filter_map (consistent_sync round log_idx log_hash) x held counted in
    let (eta, same) = consistent_sync-determines round log_idx log_hash m x is in
    (eta, subst (In messages) same (All-In (In messages) held m h.within here))

module _ {S : Type 0} ⦃ops : KvStoreOps S⦄ (c : Config) (events : NodeId → List Event)
    (store : NodeId → S) (messages : NodeId → List Message) (byzantine : NodeId → Bool) where
  -- A CHECKPOINT in the name of a node that is not Byzantine: a fast quorum of nodes is behind it.
  checkpoint_quorum :
      (nodes : List NodeId) {end : Cluster S}
      (run : ClusterSteps events (started c store messages) end) (a p : NodeId) (round log_idx : ℕ)
      (hash : Hash)
      → IsAuthentic messages byzantine
      → byzantine a ≡ false
      → Distinct NodeId-discrete nodes
      → SyncsFrom round log_idx nodes (end.messages a)
      → OneEach (sync_sender round log_idx) (end.messages a)
      → In (end.messages p) (checkpoint a round log_idx hash)
      → IsHeld (end.messages a) (end.replicas a).state.sync_msgs
        × (c.fast_quorum
            ≤ count_if (synced round log_idx hash (end.replicas a).state.sync_msgs) nodes)
  checkpoint_quorum nodes {end} run a p round log_idx hash authentic honest distinct from one
        formed =
      let inputs = inputs_at events a run in
      let first = start c events store messages byzantine a in
      let ends = node_run-ends events a run in
      let (i, said) =
        spoken c events store messages byzantine run p a (checkpoint a round log_idx hash) authentic
          honest refl (λ reply. reply) formed in
      let backed =
        All-get_elem? (IsBacked c (end.replicas a)) (run_node inputs first).0 i
          (broadcast (checkpoint a round log_idx hash))
          (run_node-Backs inputs first (end.replicas a) ends).backed said in
      let held =
        run_node-SyncsSent (end.messages a) inputs first (end.replicas a)
          (inputs_at-WasSent events a run) ends (record { within = tt; distinct = tt }) in
      let voters =
        count_if-synced round log_idx hash nodes (end.messages a) (end.replicas a).state.sync_msgs
          distinct one from held in
      (held, omega (arith, backed, voters))

  -- Two replicas of a cluster that form a checkpoint of one round and index form it of one hash. The
  -- cluster starts with replicas as `Replica::new` makes them and with messages that are in the name of
  -- Byzantine nodes or of nobody; in each step one replica handles a message that was sent to it, or an
  -- event, in any order, any number of times or never. No two nodes have one name, and two fast quorums
  -- exceed together the number of nodes and of Byzantine nodes. Of the SYNCs of the round and index that
  -- were sent to `a`, and of those that were sent to `b`, each comes from one of the nodes and no two
  -- from one node; and of a node that is not Byzantine, `a` and `b` were sent the same hash. If
  -- CHECKPOINTs of the round and index in the names of `a` and `b`, which are not Byzantine, were sent to
  -- any nodes, the two have the same hash.
  pub checkpoint_agreement :
      (nodes : List NodeId) (end : Cluster S)
      (run : ClusterSteps events (started c store messages) end) (a b p q : NodeId)
      (round log_idx : ℕ) (hash hash' : Hash)
      → IsAuthentic messages byzantine
      → byzantine a ≡ false
      → byzantine b ≡ false
      → Distinct NodeId-discrete nodes
      → SyncsFrom round log_idx nodes (end.messages a)
      → SyncsFrom round log_idx nodes (end.messages b)
      → OneEach (sync_sender round log_idx) (end.messages a)
      → OneEach (sync_sender round log_idx) (end.messages b)
      → ((x : NodeId) (h h' : Hash) (eta eta' : ℕ)
          → byzantine x ≡ false
          → In (end.messages a) (sync x round log_idx h eta)
          → In (end.messages b) (sync x round log_idx h' eta')
          → h ≡ h')
      → length nodes + count_if byzantine nodes < c.fast_quorum + c.fast_quorum
      → In (end.messages p) (checkpoint a round log_idx hash)
      → In (end.messages q) (checkpoint b round log_idx hash')
      → hash ≡ hash'
  checkpoint_agreement nodes end run a b p q round log_idx hash hash' authentic honest_a honest_b
        distinct from_a from_b one_a one_b consistent quorums formed_a formed_b =
      let (held_a, many_a) =
        checkpoint_quorum nodes run a p round log_idx hash authentic honest_a distinct from_a one_a
          formed_a in
      let (held_b, many_b) =
        checkpoint_quorum nodes run b q round log_idx hash' authentic honest_b distinct from_b one_b
          formed_b in
      let (x, honest, in_a, in_b) =
        honest_voter byzantine (synced round log_idx hash (end.replicas a).state.sync_msgs)
          (synced round log_idx hash' (end.replicas b).state.sync_msgs) nodes
          (omega (arith, quorums, many_a, many_b)) in
      let (eta, sent_a) =
        synced-In round log_idx hash (end.messages a) (end.replicas a).state.sync_msgs x held_a
          in_a in
      let (eta', sent_b) =
        synced-In round log_idx hash' (end.messages b) (end.replicas b).state.sync_msgs x held_b
          in_b in
      consistent x hash hash' eta eta' honest sent_a sent_b
