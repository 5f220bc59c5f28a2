-- ===== src/Consensus/Repair/Matching.antt =====
-- raspen/crates/consensus/src/repair.rs: the `matches!` tests and patterns that pick the messages of
-- one kind, view and round out of a message set.
use native.Mathlib.Decide.{ℕ_discrete}
use raspen.Prelude.{ℕ, Bool, true, false, ◌&&◌, Option, none, some, ◌==◌, add64, if◌then◌else◌}
use raspen.Types.{
  NodeId, Message, log_msg, repair_history, repair_prepare, repair_commit, repair_done, Event,
  repair_view_timeout, Phase, collecting_logs, prepare_phase, commit_phase,
}

unfoldable pub NodeId-discrete : Discrete NodeId
NodeId-discrete = hlevel ℕ_discrete

abbrev pub is_log_msg : Message → Bool
is_log_msg (log_msg _ _ _ _) = true
is_log_msg _ = false

abbrev pub is_repair_history : Message → Bool
is_repair_history (repair_history _ _ _ _) = true
is_repair_history _ = false

abbrev pub is_repair_prepare : Message → Bool
is_repair_prepare (repair_prepare _ _ _ _) = true
is_repair_prepare _ = false

abbrev pub is_repair_commit : Message → Bool
is_repair_commit (repair_commit _ _ _ _) = true
is_repair_commit _ = false

abbrev pub is_repair_done : Message → Bool
is_repair_done (repair_done _ _ _ _) = true
is_repair_done _ = false

-- The sender of a LOG for this view and round.
abbrev pub log_sender : (view round : ℕ) → Message → Option NodeId
log_sender view round (log_msg from v r _) = if v == view && r == round then some from else none
log_sender _ _ _ = none

-- The history hash of a REPAIR-HISTORY for this view and round.
abbrev pub history_of : (view round : ℕ) → Message → Option ℕ
history_of view round (repair_history _ v r history_hash) =
    if v == view && r == round then some history_hash else none
history_of _ _ _ = none

abbrev pub prepare_matches : (view round history_hash : ℕ) → Message → Bool
prepare_matches view round hist (repair_prepare _ v r h) = v == view && r == round && h == hist
prepare_matches _ _ _ _ = false

abbrev pub commit_matches : (view round history_hash : ℕ) → Message → Bool
commit_matches view round hist (repair_commit _ v r h) = v == view && r == round && h == hist
commit_matches _ _ _ _ = false

abbrev pub done_matches : (view round : ℕ) → Message → Bool
done_matches view round (repair_done _ v r _) = v == view && r == round
done_matches _ _ _ = false

abbrev pub history_matches : (view round : ℕ) → Message → Bool
history_matches view round (repair_history _ v r _) = v == view && r == round
history_matches _ _ _ = false

-- `CollectingLogs | PreparePhase | CommitPhase`
abbrev pub is_repair_phase : Phase → Bool
is_repair_phase collecting_logs = true
is_repair_phase prepare_phase = true
is_repair_phase commit_phase = true
is_repair_phase _ = false

abbrev pub next_view : ℕ → Event → Option ℕ
next_view view repair_view_timeout = some (add64 view 1)
next_view view _ = none
