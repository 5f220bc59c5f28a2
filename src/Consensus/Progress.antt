-- ===== src/Consensus/Progress.antt =====
-- The end of a round of REPAIR (raspen/crates/consensus/src/repair.rs, node.rs): the inputs of a node
-- that waits for votes.
pub mod Ballots
pub mod Histories
pub mod Waiting
pub mod Preparing
pub mod Voting
pub mod Leaving
use raspen.Prelude.{
  ℕ, ◌<◌, ◌≡◌, refl, true, ◌⊎◌, inl, inr, List, [], ◌∷◌, Returns, Returns-weaken, All, arith,
  if◌then◌else◌, ◌≤◌, Returns-done,
}
use raspen.Types.{KvStoreOps, commit_phase, prepare_phase}
use raspen.Storage.Contract.{KvStoreLaws}
use raspen.Consensus.Replica.{Replica}
use raspen.Consensus.Alignment.{vec_capacity}
use raspen.Consensus.Dispatch.{handle_event}
use raspen.Consensus.Node.{ReplicaInput, message, event, handle_input}
use raspen.Consensus.Progress.Ballots.{Ballot, prepare_votes, votes, heard, Ended}
use raspen.Consensus.Progress.Histories.{Agreed}
use raspen.Consensus.Progress.Waiting.{
  Waits, Advances, process_message-Advances, handle_event-Waits,
}
use raspen.Consensus.Progress.Preparing.{Prepares}
use raspen.Consensus.Progress.Voting.{Proceeds, process_message-Proceeds, handle_event-Prepares}
use raspen.Consensus.Progress.Leaving.{
  heard_input, heard_all, InputProposes, ballot, Leaves, Leaves-later, Leaves-now,
}

module _ {S : Type 0} where
  module _ ⦃ops : KvStoreOps S⦄ (laws : KvStoreLaws S) where
    input-Advances :
        (b : Ballot) (input : ReplicaInput) (r : Replica S)
        → Waits b r
        → votes b < b.config.byz_quorum
        → Returns (λ x. Advances (heard_input b input) x.0) (handle_input r input)
    unfolding handle_input
    input-Advances b (message msg) r w few = process_message-Advances laws b msg r w
    input-Advances b (event ev) r w few =
        Returns-weaken (λ x. Waits b x.0) (λ x. Advances b x.0) (handle_event r ev)
          (handle_event-Waits b ev r w) (λ x w'. inr (w', few))

    Leaves-step :
        (round : ℕ) (b : Ballot) (input : ReplicaInput) (inputs : List ReplicaInput) (r : Replica S)
        → Returns
            (λ x. Ended round x.0 ⊎ (Waits b x.0 × (votes b < b.config.byz_quorum)))
            (handle_input r input)
        → ((a : Replica S) → Waits b a → votes b < b.config.byz_quorum → Leaves round inputs a)
        → Leaves round (input ∷ inputs) r
    Leaves-step round b input inputs r advances later =
        let (x, is, advanced) = Returns-done _ (handle_input r input) advances in
        elim advanced [
          | inl e ↦ Leaves-now round input inputs r x.0 x.1 is e
          | inr (w, few) ↦ Leaves-later round input inputs r x.0 x.1 is (later x.0 w few)
        ]

    round_ends :
        (inputs : List ReplicaInput) (b : Ballot) (r : Replica S)
        → Waits b r
        → votes b < b.config.byz_quorum
        → b.config.byz_quorum ≤ votes (heard_all b inputs)
        → Leaves b.round inputs r
    round_ends [] b r w few enough = absurd (omega arith)
    round_ends (message msg ∷ inputs) b r w few enough =
        Leaves-step b.round (heard b msg) (message msg) inputs r
          (input-Advances b (message msg) r w few)
          λ a w' few'. round_ends inputs (heard b msg) a w' few' enough
    round_ends (event ev ∷ inputs) b r w few enough =
        Leaves-step b.round b (event ev) inputs r (input-Advances b (event ev) r w few)
          λ a w' few'. round_ends inputs b a w' few' enough

    -- A round of REPAIR ends: over a store that keeps its contract, a replica in `CommitPhase` whose
    -- `in_repair` is set and that holds fewer REPAIR-COMMITs for its proposal than a Byzantine quorum
    -- reaches the fast path of the next round while it handles its inputs, whatever other messages
    -- and timer events are among them, if with the inputs it has received a Byzantine quorum of
    -- REPAIR-COMMITs for its view, round and proposal, and the entries of the proposal fit in a `Vec`.
    pub repair_round_ends :
        (inputs : List ReplicaInput) (r : Replica S)
        → r.state.phase ≡ commit_phase
        → r.state.in_repair ≡ true
        → votes (ballot r) < r.config.byz_quorum
        → r.config.byz_quorum ≤ votes (heard_all (ballot r) inputs)
        → r.state.proposed_history_hash ≤ vec_capacity
        → Leaves r.state.round inputs r
    repair_round_ends inputs r phase repairing few enough fits =
        round_ends inputs (ballot r) r
          (record {
            config_is = refl;
            phase_is = phase;
            in_repair_is = repairing;
            view_is = refl;
            round_is = refl;
            history_is = refl;
            commits_are = refl;
            fits = fits;
          })
          few enough

    prepare_input-Proceeds :
        (b : Ballot) (input : ReplicaInput) (r : Replica S)
        → InputProposes b.view b.round b.history_hash input
        → Prepares b r
        → prepare_votes b < b.config.byz_quorum
        → Returns (λ x. Proceeds (heard_input b input) x.0) (handle_input r input)
    unfolding handle_input
    prepare_input-Proceeds b (message msg) r agrees w few =
        process_message-Proceeds laws b msg r agrees w
    prepare_input-Proceeds b (event ev) r agrees w few =
        Returns-weaken (λ x. Prepares b x.0) (λ x. Proceeds b x.0) (handle_event r ev)
          (handle_event-Prepares b ev r w) (λ x w'. inr (w', few))

    -- One input of a replica that has a proposal.
    Leaves-proposed :
        (b : Ballot) (input : ReplicaInput) (inputs : List ReplicaInput) (r : Replica S)
        → Returns (λ x. Proceeds b x.0) (handle_input r input)
        → b.config.byz_quorum ≤ votes (heard_all b inputs)
        → ((a : Replica S)
            → Prepares b a
            → prepare_votes b < b.config.byz_quorum
            → Leaves b.round inputs a)
        → Leaves b.round (input ∷ inputs) r
    Leaves-proposed b input inputs r proceeds enough later =
        let (x, is, stage) = Returns-done _ (handle_input r input) proceeds in
        elim stage [
          | inl (inl e) ↦ Leaves-now b.round input inputs r x.0 x.1 is e
          | inl (inr (w, few)) ↦
              Leaves-later b.round input inputs r x.0 x.1 is (round_ends inputs b x.0 w few enough)
          | inr (w, few) ↦ Leaves-later b.round input inputs r x.0 x.1 is (later x.0 w few)
        ]

    proposed_ends :
        (inputs : List ReplicaInput) (b : Ballot) (r : Replica S)
        → All (InputProposes b.view b.round b.history_hash) inputs
        → Prepares b r
        → prepare_votes b < b.config.byz_quorum
        → b.config.byz_quorum ≤ prepare_votes (heard_all b inputs)
        → b.config.byz_quorum ≤ votes (heard_all b inputs)
        → Leaves b.round inputs r
    proposed_ends [] b r agree w few prepared enough = absurd (omega arith)
    proposed_ends (message msg ∷ inputs) b r agree w few prepared enough =
        Leaves-proposed (heard b msg) (message msg) inputs r
          (prepare_input-Proceeds b (message msg) r agree.0 w few) enough
          λ a w' few'. proposed_ends inputs (heard b msg) a agree.1 w' few' prepared enough
    proposed_ends (event ev ∷ inputs) b r agree w few prepared enough =
        Leaves-proposed b (event ev) inputs r (prepare_input-Proceeds b (event ev) r agree.0 w few)
          enough λ a w' few'. proposed_ends inputs b a agree.1 w' few' prepared enough

    -- A round of REPAIR ends for a replica that has a proposal: over a store that keeps its contract, a
    -- replica in `PreparePhase` whose `in_repair` is set and that holds fewer REPAIR-PREPAREs for its
    -- proposal than a Byzantine quorum reaches the fast path of the next round while it handles its
    -- inputs, in whatever order these come and whatever else is among them, if with the inputs it has
    -- received a Byzantine quorum of REPAIR-PREPAREs and one of REPAIR-COMMITs for its view, round
    -- and proposal, every REPAIR-HISTORY for its view and round that it holds or receives has that
    -- proposal, and the entries of the proposal fit in a `Vec`.
    pub proposed_round_ends :
        (inputs : List ReplicaInput) (r : Replica S)
        → r.state.phase ≡ prepare_phase
        → r.state.in_repair ≡ true
        → Agreed r.state.view r.state.round r.state.proposed_history_hash
            r.state.repair_history_msgs
        → All (InputProposes r.state.view r.state.round r.state.proposed_history_hash) inputs
        → prepare_votes (ballot r) < r.config.byz_quorum
        → r.config.byz_quorum ≤ prepare_votes (heard_all (ballot r) inputs)
        → r.config.byz_quorum ≤ votes (heard_all (ballot r) inputs)
        → r.state.proposed_history_hash ≤ vec_capacity
        → Leaves r.state.round inputs r
    proposed_round_ends inputs r phase repairing agreed agree few prepared enough fits =
        proposed_ends inputs (ballot r) r agree
          (record {
            config_is = refl;
            phase_is = phase;
            in_repair_is = repairing;
            view_is = refl;
            round_is = refl;
            history_is = refl;
            prepares_are = refl;
            commits_are = refl;
            fits = fits;
            histories_agree = agreed;
          })
          few prepared enough
