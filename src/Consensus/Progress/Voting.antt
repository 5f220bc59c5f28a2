-- ===== src/Consensus/Progress/Voting.antt =====
-- The votes of a replica that waits for REPAIR-PREPAREs (raspen/crates/consensus/src/repair.rs), and what
-- `process_message` and `handle_event` make of it.
use raspen.Prelude.{
  ◌<◌, ◌≡◌, refl, ap, ◌⊎◌, inl, inr, List, [], ◌∷◌, done, Returns, Returns-weaken, Option-cases,
  some, none, leb, add64, arith, Bool-cases,
}
use raspen.Types.{Message, Event, KvStoreOps}
use raspen.Storage.Contract.{KvStoreLaws}
use raspen.Consensus.Replica.{Replica, Handled, fire}
use raspen.Consensus.Repair.{
  on_receive_repair_history, on_receive_repair_prepare, on_receive_repair_commit,
  on_receive_repair_done, store_repair_done, can_repair_done_catchup, handle_repair_done_catchup,
  store_repair_prepare, can_repair_commit, handle_repair_commit, prepare_quorum,
}
use raspen.Consensus.Dispatch.{run_blocks, back_blocks, process_message, handle_event, event_blocks}
use raspen.Consensus.Blocks.{All-event_blocks}
use raspen.Consensus.Keeps.{Keeps, run_blocks-then, run_blocks-after, run_blocks-Keeps}
use raspen.Consensus.Progress.Ballots.{Ballot, prepare_votes, heard}
use raspen.Consensus.Progress.Histories.{Proposes}
use raspen.Consensus.Progress.Waiting.{Waits, Advances, back-Advances}
use raspen.Consensus.Progress.Preparing.{
  Prepares, early_blocks, early-Keeps, event-Keeps, history-Keeps, heard_prepare,
}

module _ {S : Type 0} where
  -- The replica has voted to commit, or waits with fewer REPAIR-PREPAREs than it needs.
  abbrev Voted : Ballot → Replica S → Type 0
  Voted b r = Waits b r ⊎ (Prepares b r × (prepare_votes b < b.config.byz_quorum))

  store_repair_prepare-Prepares :
      (b : Ballot) (msg : Message) (r : Replica S)
      → Prepares b r
      → Prepares (heard_prepare b msg) (store_repair_prepare r msg)
  unfolding store_repair_prepare
  store_repair_prepare-Prepares b msg r w = ground (arith, w.prepares_are)

  can_repair_commit-Voted :
      (b : Ballot) (r : Replica S)
      → Prepares b r
      → Returns
          (λ x. Voted b x.0)
          (fire (can_repair_commit r) r λ history_hash. done (handle_repair_commit r history_hash))
  unfolding can_repair_commit prepare_quorum handle_repair_commit
  can_repair_commit-Voted b r w =
      let same : prepare_quorum r ≡ prepare_votes b =
        rw (w.view_is, w.round_is, w.history_is, w.prepares_are) in
      elim (Bool-cases (leb r.config.byz_quorum (prepare_quorum r))) [
        | inl full ↦
            let ready : can_repair_commit r ≡ some r.state.proposed_history_hash =
              rw (w.phase_is, full) in
            rw ready (
              inl (record {
                config_is = w.config_is;
                phase_is = refl;
                in_repair_is = w.in_repair_is;
                view_is = w.view_is;
                round_is = w.round_is;
                history_is = w.history_is;
                commits_are = w.commits_are;
                fits = w.fits;
              }))
        | inr few ↦
            let waits : can_repair_commit r ≡ none = rw (w.phase_is, few) in
            rw waits (inr (w, ground (arith, w.config_is, same)))
      ]

  Waits-forget :
      (b : Ballot) (msg : Message) (r : Replica S) → Waits (heard_prepare b msg) r → Waits b r
  Waits-forget b msg r w = record {
    config_is = w.config_is;
    phase_is = w.phase_is;
    in_repair_is = w.in_repair_is;
    view_is = w.view_is;
    round_is = w.round_is;
    history_is = w.history_is;
    commits_are = w.commits_are;
    fits = w.fits;
  }

  prepare-Voted :
      ⦃ops : KvStoreOps S⦄ (b : Ballot) (msg : Message) (r : Replica S)
      → Prepares b r
      → Returns (λ x. Voted (heard_prepare b msg) x.0) (on_receive_repair_prepare r msg)
  unfolding on_receive_repair_prepare
  prepare-Voted b msg r w =
      can_repair_commit-Voted (heard_prepare b msg) (store_repair_prepare r msg)
        (store_repair_prepare-Prepares b msg r w)

  -- The replica has left the round, or waits in it with fewer votes than its phase needs.
  abbrev pub Proceeds : Ballot → Replica S → Type 0
  Proceeds b r = Advances b r ⊎ (Prepares b r × (prepare_votes b < b.config.byz_quorum))

  -- A REPAIR-COMMIT that comes early is kept.
  commit-Prepares :
      ⦃ops : KvStoreOps S⦄ (b : Ballot) (msg : Message) (r : Replica S)
      → Prepares (heard_prepare b msg) r
      → Returns (λ x. Prepares (heard b msg) x.0) (on_receive_repair_commit r msg)
  unfolding on_receive_repair_commit
  commit-Prepares b msg r w = ground (arith, w.phase_is, w.commits_are)

  store_repair_done-Prepares :
      (b : Ballot) (msg : Message) (r : Replica S)
      → Prepares b r
      → Prepares b (store_repair_done r msg)
  unfolding store_repair_done
  store_repair_done-Prepares b msg r w = ground arith

  done-Proceeds :
      ⦃ops : KvStoreOps S⦄ (b : Ballot) (msg : Message) (r : Replica S)
      → Prepares b r
      → prepare_votes b < b.config.byz_quorum
      → Returns (λ x. Proceeds b x.0) (on_receive_repair_done r msg)
  unfolding on_receive_repair_done handle_repair_done_catchup
  done-Proceeds b msg r w few =
      let stored = store_repair_done r msg in
      let w' = store_repair_done-Prepares b msg r w in
      elim (Option-cases (can_repair_done_catchup stored)) [
        | inl idle ↦ rw idle (inr (w', few))
        | inr (round, ready) ↦ rw ready (
            inl (
              inl (record {
                phase_is = refl;
                in_repair_is = refl;
                round_is = ap (λ n. add64 n 1) w'.round_is;
              })))
      ]

  module _ ⦃ops : KvStoreOps S⦄ (laws : KvStoreLaws S) where
    -- The two blocks after that of REPAIR-PREPARE.
    after_vote :
        (b : Ballot) (msg : Message) (r : Replica S)
        → Voted (heard_prepare b msg) r
        → Returns (λ x. Proceeds (heard b msg) x.0) (run_blocks (back_blocks msg) r)
    unfolding run_blocks
    after_vote b msg r (inl w) =
        Returns-weaken (λ x. Advances (heard b msg) x.0) (λ x. Proceeds (heard b msg) x.0)
          (run_blocks (back_blocks msg) r) (back-Advances laws b msg r (Waits-forget b msg r w))
          (λ x h. inl h)
    after_vote b msg r (inr (w, few)) =
        let P : Replica S → Type 0 = Proceeds (heard b msg) in
        run_blocks-then (Prepares (heard b msg)) P (λ r'. on_receive_repair_commit r' msg)
          ((λ r'. on_receive_repair_done r' msg) ∷ []) r (commit-Prepares b msg r w)
          λ a w'.
            run_blocks-then P P (λ r'. on_receive_repair_done r' msg) [] a
              (done-Proceeds (heard b msg) msg a w' few) (λ c h. h)

    -- A replica that has a proposal and receives a message, which is no REPAIR-HISTORY of another
    -- proposal for its round, leaves the round or waits in it with fewer votes than its phase needs.
    pub process_message-Proceeds :
        (b : Ballot) (msg : Message) (r : Replica S)
        → Proposes b.view b.round b.history_hash msg
        → Prepares b r
        → Returns (λ x. Proceeds (heard b msg) x.0) (process_message r msg)
    unfolding process_message
    process_message-Proceeds b msg r agrees w =
        let P : Replica S → Type 0 = Proceeds (heard b msg) in
        let votes : List (Replica S → Handled S) =
          (λ r'. on_receive_repair_prepare r' msg) ∷ back_blocks msg in
        run_blocks-after (Prepares b) P (early_blocks b msg)
          ((λ r'. on_receive_repair_history r' msg) ∷ votes) (early-Keeps b msg)
          (λ a w'.
            run_blocks-then (Prepares b) P (λ r'. on_receive_repair_history r' msg) votes a
              (history-Keeps b msg agrees a w')
              λ c w''.
                run_blocks-then (Voted (heard_prepare b msg)) P
                  (λ r'. on_receive_repair_prepare r' msg) (back_blocks msg) c
                  (prepare-Voted b msg c w'') (after_vote b msg))
          r w

  -- No timer event moves a replica that waits for REPAIR-PREPAREs.
  pub handle_event-Prepares :
      ⦃ops : KvStoreOps S⦄ (b : Ballot) (event : Event) (r : Replica S)
      → Prepares b r
      → Returns (λ x. Prepares b x.0) (handle_event r event)
  unfolding handle_event
  handle_event-Prepares b event r w =
      run_blocks-Keeps (Prepares b) (event_blocks event)
        (All-event_blocks (Keeps (Prepares b)) event (event-Keeps b event)) r w
