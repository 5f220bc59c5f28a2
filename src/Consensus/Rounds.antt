-- ===== src/Consensus/Rounds.antt =====
-- The rounds of the REPAIR-COMMITs that a replica broadcasts, handler by handler
-- (raspen/crates/consensus/src/repair.rs).
pub mod Order
use raspen.Prelude.{
  ℕ, ◌+◌, ◌≤◌, ◌<◌, ◌≡◌, refl, sym, subst, ◌∙◌, List, [], ◌∷◌, ◌++◌, done, arith, u64_mod, add64,
  ◌⊎◌, inl, inr,
}
use raspen.Types.{
  Message, repair_commit, Effect, broadcast, send, Event, KvStoreOps, Phase, speculative,
  commit_phase,
}
use raspen.Consensus.Replica.{Replica, Handled}
use raspen.Consensus.FastPath.{on_speculate}
use raspen.Consensus.Checkpoint.{on_sync_threshold, on_receive_sync, on_sync_timeout}
use raspen.Consensus.Alignment.{on_receive_checkpoint, on_state_request, on_state_reply}
use raspen.Consensus.RepairEntry.{on_conflict, on_receive_timeout, on_proof, on_chkpt_timeout}
use raspen.Consensus.Repair.{
  on_receive_log_msg, on_receive_repair_history, on_receive_repair_prepare,
  on_receive_repair_commit, on_receive_repair_done, on_repair_view_timeout,
}
use raspen.Consensus.Dispatch.{run_blocks, front_blocks, back_blocks, process_message, handle_event}
use raspen.Consensus.Halves.{run_blocks-one, run_blocks-Halves}
use raspen.Consensus.Blocks.{
  Follows, IsTransitive, FrontBlocks, EventBlocks, Follows-front_blocks, Follows-handle_event,
}
use raspen.Consensus.Rounds.Order.{CommitsIn, CommitsFrom, CommitsIn-append, CommitsFrom-append}
use raspen.Consensus.PhaseInvariant.{InRepairAgrees}

abbrev next_of : Phase → ℕ → ℕ
next_of commit_phase round = round + 1
next_of _ round = round

module _ {S : Type 0} where
  -- The first round in which the replica may still broadcast a REPAIR-COMMIT.
  abbrev pub next_commit : Replica S → ℕ
  next_commit r = next_of r.state.phase r.state.round

  -- The round stays, and the REPAIR-COMMITs lie between the first rounds still open.
  record InRound (r r' : Replica S) (effects : List Effect) : Type 0 where
    pub agrees : InRepairAgrees r'
    pub round : r'.state.round ≡ r.state.round
    pub commits : CommitsIn (next_commit r) (next_commit r') effects

  abbrev KeepsRound : Replica S → Replica S → List Effect → Type 0
  KeepsRound r r' effects = InRepairAgrees r → InRound r r' effects

  module _ ⦃ops : KvStoreOps S⦄ where
    front_rounds : (msg : Message) → FrontBlocks (Follows KeepsRound) msg
    unfolding on_speculate on_sync_threshold on_receive_sync on_receive_checkpoint on_conflict
        on_receive_timeout on_proof on_state_request on_state_reply on_receive_log_msg
        on_receive_repair_history on_receive_repair_prepare
    front_rounds msg = record {
      speculate = λ r r' effects e. ground arith;
      sync_threshold = λ r r' effects e. ground arith;
      receive_sync = λ r r' effects e. ground arith;
      receive_checkpoint = λ r r' effects e. ground arith;
      conflict = λ r r' effects e. ground arith;
      receive_timeout = λ r r' effects e. ground arith;
      proof = λ r r' effects e. ground arith;
      state_request = λ r r' effects e. ground arith;
      state_reply = λ r r' effects e. ground arith;
      receive_log = λ r r' effects e. ground arith;
      receive_history = λ r r' effects e. ground arith;
      receive_prepare = λ r r' effects e. ground arith;
    }

    event_rounds : (event : Event) → EventBlocks (Follows KeepsRound) event
    unfolding on_sync_timeout on_chkpt_timeout on_repair_view_timeout
    event_rounds event = record {
      sync_timeout = λ r r' effects e. ground arith;
      chkpt_timeout = λ r r' effects e. ground arith;
      view_timeout = λ r r' effects e. ground arith;
    }

    KeepsRound-transitive : IsTransitive KeepsRound
    KeepsRound-transitive = record {
      stay = λ r h. record { agrees = h; round = refl; commits = omega arith };
      chain = λ a b c es fs f g h.
          let first = f h in
          let second = g first.agrees in
          record {
            agrees = second.agrees;
            round = second.round ∙ first.round;
            commits =
                CommitsIn-append (next_commit a) (next_commit b) (next_commit c) es fs first.commits
                  second.commits;
          };
    }

    -- What the handlers of REPAIR-COMMIT and REPAIR-DONE do to the round, one after the other.
    pub record EndsRound (r r' : Replica S) (effects : List Effect) : Type 0 where
      pub agrees : InRepairAgrees r'
      pub round : (r.state.round ≤ r'.state.round) × (r'.state.round ≤ r.state.round + 1)
      pub commits : CommitsIn (next_commit r) (next_commit r') effects

    commit_rounds :
        (msg : Message) (a b : Replica S) (es : List Effect)
        → InRepairAgrees a
        → a.state.round + 1 < u64_mod
        → on_receive_repair_commit a msg ≡ done (b, es)
        → EndsRound a b es × ((b.state.round ≡ a.state.round) ⊎ (b.state.phase ≡ speculative))
    unfolding on_receive_repair_commit add64
    commit_rounds msg a b es h small e = ground arith

    done_rounds :
        (msg : Message) (b c : Replica S) (fs : List Effect)
        → InRepairAgrees b
        → (b.state.round + 1 < u64_mod) ⊎ (b.state.phase ≡ speculative)
        → on_receive_repair_done b msg ≡ done (c, fs)
        → EndsRound b c fs × ((b.state.phase ≡ speculative) → c.state.round ≡ b.state.round)
    unfolding on_receive_repair_done add64
    done_rounds msg b c fs h small f = ground arith

    ends_chain :
        (a b c : Replica S) (es fs : List Effect)
        → EndsRound a b es
        → EndsRound b c fs
        → (b.state.round ≡ a.state.round) ⊎ (c.state.round ≡ b.state.round)
        → EndsRound a c (es ++ fs)
    ends_chain a b c es fs one two once = record {
      agrees = two.agrees;
      round = ground (arith, one.round, two.round);
      commits =
          CommitsIn-append (next_commit a) (next_commit b) (next_commit c) es fs one.commits
            two.commits;
    }

    -- The first handler leaves room for the second to count, or leaves the replica out of REPAIR.
    still_room :
        (a b : Replica S)
        → a.state.round + 1 < u64_mod
        → (b.state.round ≡ a.state.round) ⊎ (b.state.phase ≡ speculative)
        → (b.state.round + 1 < u64_mod) ⊎ (b.state.phase ≡ speculative)
    still_room a b small (inl same) = inl (omega arith)
    still_room a b small (inr out) = inr out

    counts_once :
        (a b c : Replica S)
        → (b.state.round ≡ a.state.round) ⊎ (b.state.phase ≡ speculative)
        → ((b.state.phase ≡ speculative) → c.state.round ≡ b.state.round)
        → (b.state.round ≡ a.state.round) ⊎ (c.state.round ≡ b.state.round)
    counts_once a b c (inl same) stays = inl same
    counts_once a b c (inr out) stays = inr (stays out)

    back_rounds :
        (msg : Message) (a c : Replica S) (effects : List Effect)
        → InRepairAgrees a
        → a.state.round + 1 < u64_mod
        → run_blocks (back_blocks msg) a ≡ done (c, effects)
        → EndsRound a c effects
    back_rounds msg a c effects h small e =
        let cut = run_blocks-Halves (on_commit ∷ []) (on_done ∷ []) a c effects e in
        let b = cut.middle in
        let es = cut.early in
        let fs = cut.late in
        let one = commit_rounds msg a b es h small (run_blocks-one on_commit a b es cut.front) in
        let two =
          done_rounds msg b c fs one.0.agrees (still_room a b small one.1)
            (run_blocks-one on_done b c fs cut.back) in
        subst (EndsRound a c) (sym cut.in_order)
          (ends_chain a b c es fs one.0 two.0 (counts_once a b c one.1 two.1))
      where
        on_commit : Replica S → Handled S
        on_commit r = on_receive_repair_commit r msg

        on_done : Replica S → Handled S
        on_done r = on_receive_repair_done r msg

    after_front :
        (a b c : Replica S) (es fs : List Effect)
        → InRound a b es
        → EndsRound b c fs
        → EndsRound a c (es ++ fs)
    after_front a b c es fs one two = record {
      agrees = two.agrees;
      round = omega (arith, one.round, two.round);
      commits =
          CommitsIn-append (next_commit a) (next_commit b) (next_commit c) es fs one.commits
            two.commits;
    }

    -- Whatever message arrives at a replica whose `in_repair` agrees with its phase, and whose round
    -- has a successor in 64 bits, it agrees again, the round stays or rises by one, and the rounds of
    -- the REPAIR-COMMITs that are broadcast rise, from the first round still open before the message
    -- to below the first one open after it.
    pub message_rounds :
        (msg : Message) (r r' : Replica S) (effects : List Effect)
        → process_message r msg ≡ done (r', effects)
        → InRepairAgrees r
        → r.state.round + 1 < u64_mod
        → EndsRound r r' effects
    unfolding process_message
    message_rounds msg r r' effects e h small =
        let cut = run_blocks-Halves (front_blocks msg) (back_blocks msg) r r' effects e in
        let m = cut.middle in
        let one =
          Follows-front_blocks KeepsRound msg KeepsRound-transitive (front_rounds msg) r m cut.early
            cut.front h in
        let two =
          back_rounds msg m r' cut.late one.agrees
            (subst (λ k. k + 1 < u64_mod) (sym one.round) small) cut.back in
        subst (EndsRound r r') (sym cut.in_order) (after_front r m r' cut.early cut.late one two)

    pub event_ends :
        (event : Event) (r r' : Replica S) (effects : List Effect)
        → handle_event r event ≡ done (r', effects)
        → InRepairAgrees r
        → EndsRound r r' effects
    event_ends event r r' effects e h =
        let one =
          Follows-handle_event KeepsRound event KeepsRound-transitive (event_rounds event) r r'
            effects e h in
        record { agrees = one.agrees; round = omega (arith, one.round); commits = one.commits }
