-- ===== src/Consensus/Leader.antt =====
-- The leaders of the views of REPAIR (`is_leader` of raspen/crates/consensus/src/replica.rs, and
-- `handle_view_change` of repair.rs over the loop of node.rs).
use raspen.Prelude.{
  ℕ, zero, suc, ◌+◌, ◌%◌, ◌<◌, ◌≡◌, refl, ap, ◌↔◌, true, some, none, Option, List, [], ◌∷◌, done,
  length, replicate, get_elem?, bytes_eq_iff, bytes_eq_refl, add64_small, u64_mod, arith,
}
use raspen.Prelude.HashSet
use raspen.Prelude.HashSet.Size.{Distinct}
use raspen.Types.{
  NodeId, Effect, broadcast, log_msg, repair_view_timeout, collecting_logs, KvStoreOps,
}
use raspen.Consensus.Replica.{Replica, named, is_leader}
use raspen.Consensus.Checkpoint.{on_sync_timeout}
use raspen.Consensus.RepairEntry.{on_chkpt_timeout}
use raspen.Consensus.Repair.{NodeId-discrete, on_repair_view_timeout}
use raspen.Consensus.Dispatch.{run_blocks, handle_event}
use raspen.Consensus.Node.{event, handle_input, run_node}

contains-get_elem? :
    (xs : List NodeId) (i : ℕ) (a : NodeId)
    → get_elem? xs i ≡ some a
    → HashSet.contains NodeId-discrete a xs ≡ true
unfolding HashSet.contains
contains-get_elem? [] i a h = cc
contains-get_elem? (x ∷ xs) zero a h = ground arith
contains-get_elem? (x ∷ xs) (suc i) a h = ground (arith, contains-get_elem? xs i a h)

-- A name stands at one index only.
get_elem?-injective :
    (xs : List NodeId) (i j : ℕ) (a : NodeId)
    → Distinct NodeId-discrete xs
    → get_elem? xs i ≡ some a
    → get_elem? xs j ≡ some a
    → i ≡ j
get_elem?-injective [] i j a d h k = cc
get_elem?-injective (x ∷ xs) zero zero a d h k = refl
get_elem?-injective (x ∷ xs) zero (suc j) a d h k =
    let twice = contains-get_elem? xs j a k in ground (arith, d.0, twice)
get_elem?-injective (x ∷ xs) (suc i) zero a d h k =
    let twice = contains-get_elem? xs i a h in ground (arith, d.0, twice)
get_elem?-injective (x ∷ xs) (suc i) (suc j) a d h k =
    ap (λ n. suc n) (get_elem?-injective xs i j a d.1 h k)

named-some : (found : Option NodeId) (a : NodeId) → named found a ≡ true → found ≡ some a
named-some none a h = cc
named-some (some x) a h = ap (λ y. some y) ((bytes_eq_iff x a).0 h)

module _ {S : Type 0} where
  abbrev at_view : Replica S → ℕ → Replica S
  at_view r view = record r { state = record r.state { view = view } }

  is_leader_iff :
      (r : Replica S) (index : ℕ)
      → Distinct NodeId-discrete r.config.nodes_ordered
      → get_elem? r.config.nodes_ordered index ≡ some r.state.node_id
      → (is_leader r ≡ true) ↔ (r.state.view % length r.config.nodes_ordered ≡ index)
  unfolding is_leader
  is_leader_iff r index distinct here =
      let nodes = r.config.nodes_ordered in
      let turn = r.state.view % length nodes in
      (
        (λ leads.
            get_elem?-injective nodes turn index r.state.node_id distinct
              (named-some (get_elem? nodes turn) r.state.node_id leads) here),
        λ is. rw (is, here) (bytes_eq_refl r.state.node_id),
      )

  view_after :
      ⦃ops : KvStoreOps S⦄ (r : Replica S)
      → r.state.phase ≡ collecting_logs
      → r.state.view + 1 < u64_mod
      → (effects : List Effect) × (handle_event r repair_view_timeout
          ≡ done (at_view r (r.state.view + 1), effects))
  unfolding handle_event run_blocks on_sync_timeout on_chkpt_timeout on_repair_view_timeout
  view_after ⦃ops⦄ r phase small =
      let new_view = r.state.view + 1 in
      (
        broadcast (log_msg r.state.node_id new_view r.state.round (ops.top_hash r.state.kv_store))
            ∷ [],
        rw (phase, add64_small r.state.view 1 small) refl,
      )

  -- Round-robin: if no two nodes have one name, a replica in `CollectingLogs` whose name stands at
  -- `index` in `nodes_ordered` comes, with `d` timeouts of the view and no overflow of the view, to a
  -- view of which it is the leader just if that view is `index` modulo the number of nodes.
  pub leads_in_turn :
      ⦃ops : KvStoreOps S⦄ (d : ℕ) (r : Replica S) (index : ℕ)
      → r.state.phase ≡ collecting_logs
      → Distinct NodeId-discrete r.config.nodes_ordered
      → get_elem? r.config.nodes_ordered index ≡ some r.state.node_id
      → r.state.view + d < u64_mod
      → (r' : Replica S) × ((run_node (replicate d (event repair_view_timeout)) r).1 ≡ done r')
        × ((is_leader r' ≡ true) ↔ ((r.state.view + d) % length r.config.nodes_ordered ≡ index))
  unfolding run_node handle_input
  leads_in_turn zero r index phase distinct here small =
      let same : r.state.view + 0 ≡ r.state.view = omega arith in
      (r, refl, rw same (is_leader_iff r index distinct here))
  leads_in_turn (suc d) r index phase distinct here small =
      let view = r.state.view in
      let (effects, is) = view_after r phase (omega arith) in
      let (r', runs, leads) =
        leads_in_turn d (at_view r (view + 1)) index phase distinct here (omega arith) in
      let same : view + suc d ≡ view + 1 + d = omega arith in (r', rw is runs, rw same leads)
