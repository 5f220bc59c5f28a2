-- ===== src/Consensus/Progress/Waiting.antt =====
-- A replica that has voted to commit and waits for REPAIR-COMMITs
-- (raspen/crates/consensus/src/repair.rs), and what the blocks of `process_message` and
-- `handle_event` make of it.
use raspen.Prelude.{
  ℕ, ◌≤◌, ◌<◌, ◌≡◌, refl, ap, true, ◌⊎◌, inl, inr, [], ◌∷◌, done, Returns, Returns-and_then,
  Returns-weaken, Option-cases, some, none, leb, add64, arith, Bool-cases,
}
use raspen.Types.{Message, Event, KvStoreOps, commit_phase}
use raspen.Storage.Contract.{KvStoreLaws}
use raspen.Consensus.Replica.{Replica, Handled, fire}
use raspen.Consensus.FastPath.{on_speculate}
use raspen.Consensus.Checkpoint.{on_sync_threshold, on_receive_sync, on_sync_timeout}
use raspen.Consensus.Alignment.{
  on_receive_checkpoint, on_state_request, on_state_reply, vec_capacity,
}
use raspen.Consensus.RepairEntry.{on_conflict, on_receive_timeout, on_proof, on_chkpt_timeout}
use raspen.Consensus.Repair.{
  on_receive_log_msg, on_receive_repair_history, on_receive_repair_prepare,
  on_receive_repair_commit, on_receive_repair_done, on_repair_view_timeout, handle_apply_repair,
  merged_store, store_repair_commit, store_repair_done, can_repair_done_catchup,
  handle_repair_done_catchup, can_apply_repair, commit_quorum,
}
use raspen.Consensus.Dispatch.{
  run_blocks, front_blocks, back_blocks, process_message, handle_event, event_blocks,
}
use raspen.Consensus.Blocks.{FrontBlocks, EventBlocks, All-front_blocks, All-event_blocks}
use raspen.Consensus.Keeps.{Keeps, run_blocks-then, run_blocks-after, run_blocks-Keeps}
use raspen.Consensus.Log.{rebuild_synthetic-done}
use raspen.Consensus.Progress.Ballots.{Ballot, votes, heard, Ended}

module _ {S : Type 0} where
  -- The replica waits in the round.
  pub record Waits (b : Ballot) (r : Replica S) : Type 0 where
    pub config_is : r.config ≡ b.config
    pub phase_is : r.state.phase ≡ commit_phase
    pub in_repair_is : r.state.in_repair ≡ true
    pub view_is : r.state.view ≡ b.view
    pub round_is : r.state.round ≡ b.round
    pub history_is : r.state.proposed_history_hash ≡ b.history_hash
    pub commits_are : r.state.repair_commit_msgs ≡ b.commits
    pub fits : b.history_hash ≤ vec_capacity

  module _ ⦃ops : KvStoreOps S⦄ (b : Ballot) where
    abbrev Stays : (Replica S → Handled S) → Type 0
    Stays = Keeps (Waits b)

    front-Stays : (msg : Message) → FrontBlocks Stays msg
    unfolding on_speculate on_sync_threshold on_receive_sync on_receive_checkpoint on_conflict
        on_receive_timeout on_proof on_state_request on_state_reply on_receive_log_msg
        on_receive_repair_history on_receive_repair_prepare
    front-Stays msg = record {
      speculate = λ r w. ground (arith, w.phase_is);
      sync_threshold = λ r w. ground (arith, w.phase_is);
      receive_sync = λ r w. ground (arith, w.phase_is);
      receive_checkpoint = λ r w. ground (arith, w.phase_is);
      conflict = λ r w. ground (arith, w.phase_is);
      receive_timeout = λ r w. ground (arith, w.phase_is);
      proof = λ r w. ground (arith, w.in_repair_is);
      state_request = λ r w. ground (arith, w.phase_is);
      state_reply = λ r w. ground (arith, w.phase_is);
      receive_log = λ r w. ground (arith, w.phase_is);
      receive_history = λ r w. ground (arith, w.phase_is);
      receive_prepare = λ r w. ground (arith, w.phase_is);
    }

    event-Stays : (event : Event) → EventBlocks Stays event
    unfolding on_sync_timeout on_chkpt_timeout on_repair_view_timeout
    event-Stays event = record {
      sync_timeout = λ r w. ground (arith, w.phase_is);
      chkpt_timeout = λ r w. ground (arith, w.phase_is);
      view_timeout = λ r w. ground (arith, w.phase_is);
    }

  -- The replica has left the round, or waits with fewer REPAIR-COMMITs than it needs.
  abbrev pub Advances : Ballot → Replica S → Type 0
  Advances b r = Ended b.round r ⊎ (Waits b r × (votes b < b.config.byz_quorum))

  store_repair_commit-Waits :
      (b : Ballot) (msg : Message) (r : Replica S)
      → Waits b r
      → Waits (heard b msg) (store_repair_commit r msg)
  unfolding store_repair_commit
  store_repair_commit-Waits b msg r w = ground (arith, w.commits_are)

  module _ ⦃ops : KvStoreOps S⦄ (laws : KvStoreLaws S) where
    merged_store-Returns :
        (kv : S) (size : ℕ) → size ≤ vec_capacity → Returns (λ x. Unit) (merged_store kv size)
    unfolding merged_store
    merged_store-Returns kv size fits =
        let (kv', is, log) = rebuild_synthetic-done laws kv size fits in ground (arith, is)

    handle_apply_repair-Ended :
        (b : Ballot) (r : Replica S) (hist : ℕ)
        → Waits b r
        → hist ≤ vec_capacity
        → Returns (λ x. Ended b.round x.0) (handle_apply_repair r hist)
    unfolding handle_apply_repair
    handle_apply_repair-Ended b r hist w fits =
        Returns-and_then (λ x. Unit) (λ x. Ended b.round x.0) (merged_store r.state.kv_store hist) _
          (merged_store-Returns r.state.kv_store hist fits)
          λ kv _. record {
            phase_is = refl;
            in_repair_is = refl;
            round_is = ap (λ n. add64 n 1) w.round_is;
          }

    can_apply_repair-Advances :
        (b : Ballot) (r : Replica S)
        → Waits b r
        → Returns (λ x. Advances b x.0) (fire (can_apply_repair r) r (handle_apply_repair r))
    unfolding can_apply_repair commit_quorum
    can_apply_repair-Advances b r w =
        let same : commit_quorum r ≡ votes b =
          rw (w.view_is, w.round_is, w.history_is, w.commits_are) in
        elim (Bool-cases (leb r.config.byz_quorum (commit_quorum r))) [
          | inl full ↦
              let ready : can_apply_repair r ≡ some r.state.proposed_history_hash =
                rw (w.phase_is, full) in
              rw ready (
                Returns-weaken (λ x. Ended b.round x.0) (λ x. Advances b x.0)
                  (handle_apply_repair r r.state.proposed_history_hash)
                  (handle_apply_repair-Ended b r r.state.proposed_history_hash w
                    (omega (arith, w.fits, w.history_is)))
                  (λ x e. inl e))
          | inr few ↦
              let waits : can_apply_repair r ≡ none = rw (w.phase_is, few) in
              rw waits (inr (w, ground (arith, w.config_is, same)))
        ]

    commit-Advances :
        (b : Ballot) (msg : Message) (r : Replica S)
        → Waits b r
        → Returns (λ x. Advances (heard b msg) x.0) (on_receive_repair_commit r msg)
    unfolding on_receive_repair_commit
    commit-Advances b msg r w =
        can_apply_repair-Advances (heard b msg) (store_repair_commit r msg)
          (store_repair_commit-Waits b msg r w)

  store_repair_done-Waits :
      (b : Ballot) (msg : Message) (r : Replica S) → Waits b r → Waits b (store_repair_done r msg)
  unfolding store_repair_done
  store_repair_done-Waits b msg r w = ground arith

  catchup-Advances :
      (b : Ballot) (r : Replica S)
      → Waits b r
      → votes b < b.config.byz_quorum
      → Returns
          (λ x. Advances b x.0)
          (fire (can_repair_done_catchup r) r λ round. done (handle_repair_done_catchup r round))
  unfolding handle_repair_done_catchup
  catchup-Advances b r w few = elim (Option-cases (can_repair_done_catchup r)) [
    | inl idle ↦ rw idle (inr (w, few))
    | inr (round, ready) ↦ rw ready (
        inl (record {
          phase_is = refl;
          in_repair_is = refl;
          round_is = ap (λ n. add64 n 1) w.round_is;
        }))
  ]

  done-Advances :
      ⦃ops : KvStoreOps S⦄ (b : Ballot) (msg : Message) (r : Replica S)
      → Advances b r
      → Returns (λ x. Advances b x.0) (on_receive_repair_done r msg)
  unfolding on_receive_repair_done
  done-Advances b msg r (inl e) = ground (arith, e.phase_is)
  done-Advances b msg r (inr (w, few)) =
      catchup-Advances b (store_repair_done r msg) (store_repair_done-Waits b msg r w) few

  module _ ⦃ops : KvStoreOps S⦄ (laws : KvStoreLaws S) where
    pub back-Advances :
        (b : Ballot) (msg : Message) (r : Replica S)
        → Waits b r
        → Returns (λ x. Advances (heard b msg) x.0) (run_blocks (back_blocks msg) r)
    unfolding run_blocks
    back-Advances b msg r w =
        let P : Replica S → Type 0 = Advances (heard b msg) in
        run_blocks-then P P (λ r'. on_receive_repair_commit r' msg)
          ((λ r'. on_receive_repair_done r' msg) ∷ []) r (commit-Advances laws b msg r w)
          λ a h.
            run_blocks-then P P (λ r'. on_receive_repair_done r' msg) [] a
              (done-Advances (heard b msg) msg a h) (λ c h'. h')

    -- A replica that waits in a round and receives a message leaves the round, or waits in it with
    -- fewer REPAIR-COMMITs than it needs, the received one among them.
    pub process_message-Advances :
        (b : Ballot) (msg : Message) (r : Replica S)
        → Waits b r
        → Returns (λ x. Advances (heard b msg) x.0) (process_message r msg)
    unfolding process_message
    process_message-Advances b msg r w =
        run_blocks-after (Waits b) (Advances (heard b msg)) (front_blocks msg) (back_blocks msg)
          (All-front_blocks (Stays b) msg (front-Stays b msg)) (back-Advances b msg) r w

  -- No timer event moves a replica that waits in a round.
  pub handle_event-Waits :
      ⦃ops : KvStoreOps S⦄ (b : Ballot) (event : Event) (r : Replica S)
      → Waits b r
      → Returns (λ x. Waits b x.0) (handle_event r event)
  unfolding handle_event
  handle_event-Waits b event r w =
      run_blocks-Keeps (Waits b) (event_blocks event)
        (All-event_blocks (Stays b) event (event-Stays b event)) r w
