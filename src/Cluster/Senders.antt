-- ===== src/Cluster/Senders.antt =====
-- The SYNCs that a replica counts (raspen/crates/consensus/src/checkpoint.rs), and their senders.
use raspen.Prelude.{ℕ, ◌≡◌, true, some, arith}
use raspen.Types.{NodeId, Hash, Message, sync}
use raspen.Consensus.Checkpoint.{sync_matches}
use raspen.Spec.Senders.{consistent_sync, sync_sender}

pub sync_matches-sender :
    (round log_idx : ℕ) (log_hash : Hash) (m : Message)
    → sync_matches round log_idx log_hash m ≡ true
    → (a : NodeId) × (consistent_sync round log_idx log_hash m ≡ some a)
sync_matches-sender round log_idx log_hash (sync from _ _ _ _) h = (from, ground arith)
sync_matches-sender round log_idx log_hash _ h = cc

pub consistent_sync-sender :
    (round log_idx : ℕ) (log_hash : Hash) (m : Message) (a : NodeId)
    → consistent_sync round log_idx log_hash m ≡ some a
    → sync_sender round log_idx m ≡ some a
consistent_sync-sender round log_idx log_hash (sync from _ _ _ _) a h = ground arith
consistent_sync-sender round log_idx log_hash _ a h = cc
