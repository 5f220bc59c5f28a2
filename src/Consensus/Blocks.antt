-- ===== src/Consensus/Blocks.antt =====
-- Rules for what `process_message` and `handle_event` do: a relation between the replica before, the
-- replica after and the effects holds of the whole if it holds of each block.
use raspen.Prelude.{◌≡◌, List, [], ◌∷◌, ◌++◌, done, and_then-eq-done, done-injective, All, subst}
use raspen.Types.{Effect, Message, Event, KvStoreOps}
use raspen.Consensus.Replica.{Replica, Handled}
use raspen.Consensus.FastPath.{on_speculate}
use raspen.Consensus.Checkpoint.{on_sync_threshold, on_receive_sync, on_sync_timeout}
use raspen.Consensus.Alignment.{on_receive_checkpoint, on_state_request, on_state_reply}
use raspen.Consensus.RepairEntry.{on_conflict, on_receive_timeout, on_proof, on_chkpt_timeout}
use raspen.Consensus.Repair.{
  on_receive_log_msg, on_receive_repair_history, on_receive_repair_prepare,
  on_receive_repair_commit, on_receive_repair_done, on_repair_view_timeout,
}
use raspen.Consensus.Dispatch.{
  run_blocks, front_blocks, message_blocks, event_blocks, process_message, handle_event,
}

module _ {S : Type 0} where
  -- Whenever the block returns, the relation holds.
  abbrev pub Follows :
      (Replica S → Replica S → List Effect → Type 0) → (Replica S → Handled S) → Type 0
  Follows R block =
      (r r' : Replica S) (effects : List Effect) → block r ≡ done (r', effects) → R r r' effects

  -- The relation holds of no change, and of one change after another.
  pub record IsTransitive (R : Replica S → Replica S → List Effect → Type 0) : Type 0 where
    pub stay : (r : Replica S) → R r r []
    pub chain : (a b c : Replica S) (es fs : List Effect) → R a b es → R b c fs → R a c (es ++ fs)

  module _ (R : Replica S → Replica S → List Effect → Type 0) (t : IsTransitive R) where
    pub Follows-run_blocks :
        (blocks : List (Replica S → Handled S))
        → All (Follows R) blocks
        → Follows R (run_blocks blocks)
    unfolding run_blocks
    Follows-run_blocks [] h r r' effects e = subst (λ x. R r x.0 x.1) (done-injective e) (t.stay r)
    Follows-run_blocks (block ∷ blocks) h r r' effects e =
        let (a, first, rest) = and_then-eq-done (block r) _ e in
        let (b, second, last) = and_then-eq-done (run_blocks blocks a.0) _ rest in
        subst (λ x. R r x.0 x.1) (done-injective last)
          (t.chain r a.0 b.0 a.1 b.1 (h.0 r a.0 a.1 first)
            (Follows-run_blocks blocks h.1 a.0 b.0 b.1 second))

  module _ ⦃ops : KvStoreOps S⦄ (P : (Replica S → Handled S) → Type 0) where
    -- `P` holds of each block of `process_message`.
    pub record MessageBlocks (msg : Message) : Type 0 where
      pub speculate : P (λ r. on_speculate r msg)
      pub sync_threshold : P on_sync_threshold
      pub receive_sync : P (λ r. on_receive_sync r msg)
      pub receive_checkpoint : P (λ r. on_receive_checkpoint r msg)
      pub conflict : P on_conflict
      pub receive_timeout : P (λ r. on_receive_timeout r msg)
      pub proof : P (λ r. on_proof r msg)
      pub state_request : P (λ r. on_state_request r msg)
      pub state_reply : P (λ r. on_state_reply r msg)
      pub receive_log : P (λ r. on_receive_log_msg r msg)
      pub receive_history : P (λ r. on_receive_repair_history r msg)
      pub receive_prepare : P (λ r. on_receive_repair_prepare r msg)
      pub receive_commit : P (λ r. on_receive_repair_commit r msg)
      pub receive_done : P (λ r. on_receive_repair_done r msg)

    -- `P` holds of each block before those that may end a REPAIR.
    pub record FrontBlocks (msg : Message) : Type 0 where
      pub speculate : P (λ r. on_speculate r msg)
      pub sync_threshold : P on_sync_threshold
      pub receive_sync : P (λ r. on_receive_sync r msg)
      pub receive_checkpoint : P (λ r. on_receive_checkpoint r msg)
      pub conflict : P on_conflict
      pub receive_timeout : P (λ r. on_receive_timeout r msg)
      pub proof : P (λ r. on_proof r msg)
      pub state_request : P (λ r. on_state_request r msg)
      pub state_reply : P (λ r. on_state_reply r msg)
      pub receive_log : P (λ r. on_receive_log_msg r msg)
      pub receive_history : P (λ r. on_receive_repair_history r msg)
      pub receive_prepare : P (λ r. on_receive_repair_prepare r msg)

    -- `P` holds of each block of `handle_event`.
    pub record EventBlocks (event : Event) : Type 0 where
      pub sync_timeout : P (λ r. on_sync_timeout r event)
      pub chkpt_timeout : P (λ r. on_chkpt_timeout r event)
      pub view_timeout : P (λ r. on_repair_view_timeout r event)

    pub All-message_blocks : (msg : Message) → MessageBlocks msg → All P (message_blocks msg)
    All-message_blocks msg b = (
      b.speculate,
      (
        b.sync_threshold,
        (
          b.receive_sync,
          (
            b.receive_checkpoint,
            (
              b.conflict,
              (
                b.receive_timeout,
                (
                  b.proof,
                  (
                    b.state_request,
                    (
                      b.state_reply,
                      (
                        b.receive_log,
                        (
                          b.receive_history,
                          (b.receive_prepare, (b.receive_commit, (b.receive_done, tt))),
                        ),
                      ),
                    ),
                  ),
                ),
              ),
            ),
          ),
        ),
      ),
    )

    pub All-front_blocks : (msg : Message) → FrontBlocks msg → All P (front_blocks msg)
    All-front_blocks msg b = (
      b.speculate,
      (
        b.sync_threshold,
        (
          b.receive_sync,
          (
            b.receive_checkpoint,
            (
              b.conflict,
              (
                b.receive_timeout,
                (
                  b.proof,
                  (
                    b.state_request,
                    (b.state_reply, (b.receive_log, (b.receive_history, (b.receive_prepare, tt)))),
                  ),
                ),
              ),
            ),
          ),
        ),
      ),
    )

    pub All-event_blocks : (event : Event) → EventBlocks event → All P (event_blocks event)
    All-event_blocks event b = (b.sync_timeout, (b.chkpt_timeout, (b.view_timeout, tt)))

  module _ ⦃ops : KvStoreOps S⦄ (R : Replica S → Replica S → List Effect → Type 0) where
    pub Follows-process_message :
        (msg : Message)
        → IsTransitive R
        → MessageBlocks (Follows R) msg
        → Follows R (λ r. process_message r msg)
    unfolding process_message
    Follows-process_message msg t b =
        Follows-run_blocks R t (message_blocks msg) (All-message_blocks (Follows R) msg b)

    pub Follows-front_blocks :
        (msg : Message)
        → IsTransitive R
        → FrontBlocks (Follows R) msg
        → Follows R (run_blocks (front_blocks msg))
    Follows-front_blocks msg t b =
        Follows-run_blocks R t (front_blocks msg) (All-front_blocks (Follows R) msg b)

    pub Follows-handle_event :
        (event : Event)
        → IsTransitive R
        → EventBlocks (Follows R) event
        → Follows R (λ r. handle_event r event)
    unfolding handle_event
    Follows-handle_event event t b =
        Follows-run_blocks R t (event_blocks event) (All-event_blocks (Follows R) event b)
