-- ===== src/Consensus/Proposal.antt =====
-- The history hash that a leader proposes (`can_broadcast_history` of
-- raspen/crates/consensus/src/repair.rs counts the distinct senders of LOGs).
use raspen.Prelude.{
  count_if-le-length, ℕ, ◌≤◌, ◌≡◌, refl, ◌∙◌, Bool, true, false, ◌&&◌, ◌||◌, some, List, [], ◌∷◌,
  length, count_if, filter_map, arith, ◌==◌,
}
use raspen.Prelude.HashSet
use raspen.Prelude.HashSet.Size.{Distinct, Within, length-collect}
use raspen.Types.{NodeId, Message, log_msg}
use raspen.Consensus.Replica.{Replica, is_leader}
use raspen.Consensus.Repair.{NodeId-discrete, log_sender, log_senders, can_broadcast_history}

-- A LOG of the node for the view and round.
abbrev pub is_log_of : (view round : ℕ) → NodeId → Message → Bool
is_log_of view round x (log_msg from v r _) =
    HashSet.contains NodeId-discrete x (from ∷ []) && (v == view && r == round)
is_log_of view round x _ = false

-- Among the messages is a LOG of the node for the view and round.
abbrev pub has_logged : (view round : ℕ) → List Message → NodeId → Bool
has_logged view round [] x = false
has_logged view round (m ∷ ms) x = is_log_of view round x m || has_logged view round ms x

-- Every LOG comes from one of the nodes.
abbrev pub LogsFrom : List NodeId → List Message → Type 0
LogsFrom nodes [] = Unit
LogsFrom nodes (log_msg from _ _ _ ∷ ms) =
    (HashSet.contains NodeId-discrete from nodes ≡ true) × LogsFrom nodes ms
LogsFrom nodes (_ ∷ ms) = LogsFrom nodes ms

contains-log_senders :
    (view round : ℕ) (ms : List Message) (x : NodeId)
    → HashSet.contains NodeId-discrete x (filter_map (log_sender view round) ms)
      ≡ has_logged view round ms x
unfolding filter_map HashSet.contains
contains-log_senders view round [] x = refl
contains-log_senders view round (log_msg from v r h ∷ ms) x =
    ground (arith, contains-log_senders view round ms x)
contains-log_senders view round (_ ∷ ms) x = contains-log_senders view round ms x

log_senders-Within :
    (view round : ℕ) (nodes : List NodeId) (ms : List Message)
    → LogsFrom nodes ms
    → Within NodeId-discrete nodes (filter_map (log_sender view round) ms)
unfolding filter_map
log_senders-Within view round nodes [] w = tt
log_senders-Within view round nodes (log_msg from v r h ∷ ms) w =
    ground (arith, log_senders-Within view round nodes ms w.1)
log_senders-Within view round nodes (_ ∷ ms) w = log_senders-Within view round nodes ms w

count_if-same :
    (p q : NodeId → Bool) (xs : List NodeId)
    → ((x : NodeId) → p x ≡ q x)
    → count_if p xs ≡ count_if q xs
unfolding count_if
count_if-same p q [] h = refl
count_if-same p q (x ∷ xs) h = ground (arith, h x, count_if-same p q xs h)

module _ {S : Type 0} where
  -- A leader proposes the number of nodes that have sent a LOG for its view and round: if no two
  -- nodes have one name, and the LOGs that it holds come from the nodes, the history hash that
  -- passes the guard is that number, which is at least a Byzantine quorum and at most the number of
  -- nodes, and the replica leads its view.
  pub can_broadcast_history_lem :
      (r : Replica S) (nodes : List NodeId) (history_hash : ℕ)
      → Distinct NodeId-discrete nodes
      → LogsFrom nodes r.state.log_msgs
      → can_broadcast_history r ≡ some history_hash
      → (history_hash ≡ count_if (has_logged r.state.view r.state.round r.state.log_msgs) nodes)
        × (r.config.byz_quorum ≤ history_hash)
        × (history_hash ≤ length nodes)
        × (is_leader r ≡ true)
  unfolding can_broadcast_history log_senders
  can_broadcast_history_lem r nodes history_hash distinct from h =
      let view = r.state.view in
      let round = r.state.round in
      let senders = filter_map (log_sender view round) r.state.log_msgs in
      let counted =
        length-collect NodeId-discrete senders nodes distinct
          (log_senders-Within view round nodes r.state.log_msgs from)
        ∙ count_if-same (λ x. HashSet.contains NodeId-discrete x senders)
            (has_logged view round r.state.log_msgs) nodes
            (contains-log_senders view round r.state.log_msgs) in
      ground (arith, counted, count_if-le-length (has_logged view round r.state.log_msgs) nodes)
