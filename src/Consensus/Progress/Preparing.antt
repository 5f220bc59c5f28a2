-- ===== src/Consensus/Progress/Preparing.antt =====
-- A replica that has a proposal and waits for REPAIR-PREPAREs
-- (raspen/crates/consensus/src/repair.rs), and what the blocks before the votes make of it.
use raspen.Prelude.{
  ℕ, ◌≤◌, ◌≡◌, refl, true, inl, inr, List, [], ◌∷◌, Option-cases, some, All, arith,
}
use raspen.Types.{Message, Event, KvStoreOps, prepare_phase}
use raspen.Consensus.Replica.{Replica, Handled}
use raspen.Consensus.FastPath.{on_speculate}
use raspen.Consensus.Checkpoint.{on_sync_threshold, on_receive_sync, on_sync_timeout}
use raspen.Consensus.Alignment.{
  on_receive_checkpoint, on_state_request, on_state_reply, vec_capacity,
}
use raspen.Consensus.RepairEntry.{on_conflict, on_receive_timeout, on_proof, on_chkpt_timeout}
use raspen.Consensus.Repair.{
  on_receive_log_msg, on_receive_repair_history, on_repair_view_timeout, store_repair_history,
  can_repair_prepare, handle_repair_prepare,
}
use raspen.Consensus.Blocks.{EventBlocks}
use raspen.Consensus.Keeps.{Keeps}
use raspen.Consensus.Progress.Ballots.{Ballot, heard}
use raspen.Consensus.Progress.Histories.{Proposes, Agreed, find_map-Proposes, Agreed-insert}

-- With the REPAIR-PREPARE that is being received.
abbrev pub heard_prepare : Ballot → Message → Ballot
heard_prepare b msg = record b { prepares = (heard b msg).prepares }

module _ {S : Type 0} where
  -- The replica has voted to prepare.
  pub record Prepares (b : Ballot) (r : Replica S) : Type 0 where
    pub config_is : r.config ≡ b.config
    pub phase_is : r.state.phase ≡ prepare_phase
    pub in_repair_is : r.state.in_repair ≡ true
    pub view_is : r.state.view ≡ b.view
    pub round_is : r.state.round ≡ b.round
    pub history_is : r.state.proposed_history_hash ≡ b.history_hash
    pub prepares_are : r.state.repair_prepare_msgs ≡ b.prepares
    pub commits_are : r.state.repair_commit_msgs ≡ b.commits
    pub fits : b.history_hash ≤ vec_capacity
    pub histories_agree : Agreed b.view b.round b.history_hash r.state.repair_history_msgs

  module _ ⦃ops : KvStoreOps S⦄ (b : Ballot) where
    -- The blocks before those of the votes.
    abbrev pub early_blocks : Message → List (Replica S → Handled S)
    early_blocks msg =
        (λ r. on_speculate r msg)
        ∷ on_sync_threshold
        ∷ (λ r. on_receive_sync r msg)
        ∷ (λ r. on_receive_checkpoint r msg)
        ∷ on_conflict
        ∷ (λ r. on_receive_timeout r msg)
        ∷ (λ r. on_proof r msg)
        ∷ (λ r. on_state_request r msg)
        ∷ (λ r. on_state_reply r msg)
        ∷ (λ r. on_receive_log_msg r msg)
        ∷ []

    pub early-Keeps : (msg : Message) → All (Keeps (Prepares b)) (early_blocks msg)
    unfolding on_speculate on_sync_threshold on_receive_sync on_receive_checkpoint on_conflict
        on_receive_timeout on_proof on_state_request on_state_reply on_receive_log_msg
    early-Keeps msg = (
      (λ r w. ground (arith, w.phase_is)),
      (
        (λ r w. ground (arith, w.phase_is)),
        (
          (λ r w. ground (arith, w.phase_is)),
          (
            (λ r w. ground (arith, w.phase_is)),
            (
              (λ r w. ground (arith, w.phase_is)),
              (
                (λ r w. ground (arith, w.phase_is)),
                (
                  (λ r w. ground (arith, w.in_repair_is)),
                  (
                    (λ r w. ground (arith, w.phase_is)),
                    (
                      (λ r w. ground (arith, w.phase_is)),
                      ((λ r w. ground (arith, w.phase_is)), tt),
                    ),
                  ),
                ),
              ),
            ),
          ),
        ),
      ),
    )

    pub event-Keeps : (event : Event) → EventBlocks (Keeps (Prepares b)) event
    unfolding on_sync_timeout on_chkpt_timeout on_repair_view_timeout
    event-Keeps event = record {
      sync_timeout = λ r w. ground (arith, w.phase_is);
      chkpt_timeout = λ r w. ground (arith, w.phase_is);
      view_timeout = λ r w. ground (arith, w.phase_is);
    }

    store_repair_history-Prepares :
        (msg : Message) (r : Replica S)
        → Proposes b.view b.round b.history_hash msg
        → Prepares b r
        → Prepares b (store_repair_history r msg)
    unfolding store_repair_history
    store_repair_history-Prepares msg r agrees w = ground (
      arith,
      Agreed-insert b.view b.round b.history_hash msg r.state.repair_history_msgs w.histories_agree
          agrees,
    )

    can_repair_prepare-Proposes :
        (r : Replica S) (h : ℕ) → Prepares b r → can_repair_prepare r ≡ some h → h ≡ b.history_hash
    unfolding can_repair_prepare
    can_repair_prepare-Proposes r h w is =
        find_map-Proposes b.view b.round b.history_hash r.state.repair_history_msgs h
          w.histories_agree.all (rw (w.phase_is, w.view_is, w.round_is) at is)

    pub history-Keeps :
        (msg : Message)
        → Proposes b.view b.round b.history_hash msg
        → Keeps (Prepares b) (λ r. on_receive_repair_history r msg)
    unfolding on_receive_repair_history handle_repair_prepare
    history-Keeps msg agrees r w =
        let stored = store_repair_history r msg in
        let w' = store_repair_history-Prepares msg r agrees w in
        elim (Option-cases (can_repair_prepare stored)) [
          | inl idle ↦ rw idle w'
          | inr (h, ready) ↦
              let same = can_repair_prepare-Proposes stored h w' ready in
              rw ready (record {
                config_is = w'.config_is;
                phase_is = refl;
                in_repair_is = w'.in_repair_is;
                view_is = w'.view_is;
                round_is = w'.round_is;
                history_is = same;
                prepares_are = w'.prepares_are;
                commits_are = w'.commits_are;
                fits = w'.fits;
                histories_agree = w'.histories_agree;
              })
        ]
