-- ===== src/Consensus/Progress/Ballots.antt =====
-- A round of REPAIR from the view of one replica (raspen/crates/consensus/src/repair.rs), and rules for
-- what a list of blocks comes to.
use raspen.Prelude.{ℕ, ◌≡◌, false, List, count_if, add64, if◌then◌else◌}
use raspen.Prelude.HashSet
use raspen.Types.{Message, Message-discrete, Config, speculative}
use raspen.Consensus.Replica.{Replica}
use raspen.Consensus.Repair.{prepare_matches, commit_matches, is_repair_prepare, is_repair_commit}

-- The round that a replica is in, with its proposal, and the REPAIR-PREPAREs and REPAIR-COMMITs that
-- it holds.
pub record Ballot : Type 0 where
  pub config : Config
  pub view : ℕ
  pub round : ℕ
  pub history_hash : ℕ
  pub prepares : List Message
  pub commits : List Message

-- How many REPAIR-PREPAREs count.
abbrev pub prepare_votes : Ballot → ℕ
prepare_votes b = count_if (prepare_matches b.view b.round b.history_hash) b.prepares

-- How many REPAIR-COMMITs count.
abbrev pub votes : Ballot → ℕ
votes b = count_if (commit_matches b.view b.round b.history_hash) b.commits

-- With one more message received.
abbrev pub heard : Ballot → Message → Ballot
heard b msg = record b {
  prepares =
      if is_repair_prepare msg then HashSet.insert Message-discrete msg b.prepares else b.prepares;
  commits =
      if is_repair_commit msg then HashSet.insert Message-discrete msg b.commits else b.commits;
}

module _ {S : Type 0} where
  -- The replica has left the round for the fast path of the next one.
  pub record Ended (round : ℕ) (r : Replica S) : Type 0 where
    pub phase_is : r.state.phase ≡ speculative
    pub in_repair_is : r.state.in_repair ≡ false
    pub round_is : r.state.round ≡ add64 round 1
