-- ===== src/Spec/Senders.antt =====
-- specs/aspen.qnt, the helper functions: the sets of senders whose sizes are compared with quorums.
use raspen.Prelude.{
  ℕ, ◌+◌, Bool, false, ◌&&◌, Option, none, some, List, [], ◌∷◌, any, filter_map, ltb, ◌==◌,
  bytes_eq, if◌then◌else◌,
}
use raspen.Prelude.HashSet
use raspen.Types.{
  Hash, NodeId, Message, sync, checkpoint, timeout_msg, log_msg, repair_history, repair_prepare,
  repair_commit, repair_done, Config,
}
use raspen.Consensus.Repair.{NodeId-discrete}

-- `messages.filterMap(f)`, a set of nodes
abbrev pub senders : (Message → Option NodeId) → List Message → List NodeId
senders f messages = HashSet.collect NodeId-discrete (filter_map f messages)

abbrev pub consistent_sync : (round log_idx : ℕ) → Hash → Message → Option NodeId
consistent_sync round log_idx log_hash (sync from r li lh _) =
    if r == round && li == log_idx && bytes_eq lh log_hash then some from else none
consistent_sync _ _ _ _ = none

unfoldable pub consistent_syncs : List Message → (round log_idx : ℕ) → Hash → List NodeId
consistent_syncs messages round log_idx log_hash =
    senders (consistent_sync round log_idx log_hash) messages

abbrev pub sync_sender : (round log_idx : ℕ) → Message → Option NodeId
sync_sender round log_idx (sync from r li _ _) =
    if r == round && li == log_idx then some from else none
sync_sender _ _ _ = none

unfoldable pub all_sync_senders : List Message → (round log_idx : ℕ) → List NodeId
all_sync_senders messages round log_idx = senders (sync_sender round log_idx) messages

abbrev pub checkpoint_sender : (round log_idx : ℕ) → Message → Option NodeId
checkpoint_sender round log_idx (checkpoint from r li _) =
    if r == round && li == log_idx then some from else none
checkpoint_sender _ _ _ = none

unfoldable pub checkpoint_senders : List Message → (round log_idx : ℕ) → List NodeId
checkpoint_senders messages round log_idx = senders (checkpoint_sender round log_idx) messages

abbrev pub timeout_sender : (round log_idx : ℕ) → Message → Option NodeId
timeout_sender round log_idx (timeout_msg from r li) =
    if r == round && li == log_idx then some from else none
timeout_sender _ _ _ = none

unfoldable pub timeout_senders : List Message → (round log_idx : ℕ) → List NodeId
timeout_senders messages round log_idx = senders (timeout_sender round log_idx) messages

abbrev pub log_msg_sender : (view round : ℕ) → Message → Option NodeId
log_msg_sender view round (log_msg from v r _) = if v == view && r == round then some from else none
log_msg_sender _ _ _ = none

unfoldable pub log_msg_senders : List Message → (view round : ℕ) → List NodeId
log_msg_senders messages view round = senders (log_msg_sender view round) messages

abbrev pub repair_prepare_sender : (view round history_hash : ℕ) → Message → Option NodeId
repair_prepare_sender view round hist (repair_prepare from v r h) =
    if v == view && r == round && h == hist then some from else none
repair_prepare_sender _ _ _ _ = none

unfoldable pub repair_prepare_senders : List Message → (view round history_hash : ℕ) → List NodeId
repair_prepare_senders messages view round hist =
    senders (repair_prepare_sender view round hist) messages

abbrev pub repair_commit_sender : (view round history_hash : ℕ) → Message → Option NodeId
repair_commit_sender view round hist (repair_commit from v r h) =
    if v == view && r == round && h == hist then some from else none
repair_commit_sender _ _ _ _ = none

unfoldable pub repair_commit_senders : List Message → (view round history_hash : ℕ) → List NodeId
repair_commit_senders messages view round hist =
    senders (repair_commit_sender view round hist) messages

abbrev pub repair_done_sender : (view round : ℕ) → Message → Option NodeId
repair_done_sender view round (repair_done from v r _) =
    if v == view && r == round then some from else none
repair_done_sender _ _ _ = none

unfoldable pub repair_done_senders : List Message → (view round : ℕ) → List NodeId
repair_done_senders messages view round = senders (repair_done_sender view round) messages

abbrev pub is_history : (view round : ℕ) → Message → Bool
is_history view round (repair_history _ v r _) = v == view && r == round
is_history _ _ _ = false

unfoldable pub has_repair_history : List Message → (view round : ℕ) → Bool
has_repair_history messages view round = any (is_history view round) messages

abbrev pub larger_history : (view round : ℕ) → Message → ℕ → ℕ
larger_history view round (repair_history _ v r h) acc =
    if v == view && r == round && ltb acc h then h else acc
larger_history _ _ _ acc = acc

-- The largest of the history hashes, and 0 for none.
unfoldable pub get_history_hash : List Message → (view round : ℕ) → ℕ
get_history_hash [] view round = 0
get_history_hash (m ∷ messages) view round =
    larger_history view round m (get_history_hash messages view round)

-- `(n_replicas - total_syncs) < (fast_quorum - consistent_count)`, on integers
unfoldable pub conflict_proof_possible : Config → (total_syncs consistent_count : ℕ) → Bool
conflict_proof_possible c total consistent = ltb (c.n + consistent) (c.fast_quorum + total)
