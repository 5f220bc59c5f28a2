-- ===== src/Consensus/Backing/Handlers.antt =====
-- What backs the messages of the handlers before REPAIR
-- (raspen/crates/consensus/src/fast_path.rs, checkpoint.rs, alignment.rs and repair_entry.rs).
use raspen.Prelude.{arith}
use raspen.Types.{Message, KvStoreOps}
use raspen.Consensus.FastPath.{on_speculate}
use raspen.Consensus.Checkpoint.{sync_quorum, on_sync_threshold, on_receive_sync}
use raspen.Consensus.Alignment.{on_receive_checkpoint, on_state_request, on_state_reply}
use raspen.Consensus.RepairEntry.{sync_total, on_conflict, on_receive_timeout, on_proof}
use raspen.Consensus.Blocks.{Follows}
use raspen.Consensus.Grows.{Grows-insert, AllGrow-refl}
use raspen.Consensus.Backing.Evidence.{Backs}

module _ {S : Type 0} ⦃ops : KvStoreOps S⦄ where
  pub on_speculate-Backs : (msg : Message) → Follows {S = S} Backs (λ r. on_speculate r msg)
  unfolding on_speculate
  on_speculate-Backs msg r r' effects e = ground (arith, AllGrow-refl r)

  pub on_sync_threshold-Backs : Follows {S = S} Backs on_sync_threshold
  unfolding on_sync_threshold
  on_sync_threshold-Backs r r' effects e = ground (arith, AllGrow-refl r)

  pub on_receive_sync-Backs : (msg : Message) → Follows {S = S} Backs (λ r. on_receive_sync r msg)
  unfolding on_receive_sync sync_quorum
  on_receive_sync-Backs msg r r' effects e =
      ground (arith, AllGrow-refl r, Grows-insert msg r.state.sync_msgs)

  pub on_receive_checkpoint-Backs :
      (msg : Message) → Follows {S = S} Backs (λ r. on_receive_checkpoint r msg)
  unfolding on_receive_checkpoint
  on_receive_checkpoint-Backs msg r r' effects e =
      ground (arith, AllGrow-refl r, Grows-insert msg r.state.chkpt_msgs)

  pub on_conflict-Backs : Follows {S = S} Backs on_conflict
  unfolding on_conflict sync_total
  on_conflict-Backs r r' effects e = ground (arith, AllGrow-refl r)

  pub on_receive_timeout-Backs :
      (msg : Message) → Follows {S = S} Backs (λ r. on_receive_timeout r msg)
  unfolding on_receive_timeout
  on_receive_timeout-Backs msg r r' effects e =
      ground (arith, AllGrow-refl r, Grows-insert msg r.state.timeout_msgs)

  pub on_proof-Backs : (msg : Message) → Follows {S = S} Backs (λ r. on_proof r msg)
  unfolding on_proof
  on_proof-Backs msg r r' effects e = ground (arith, AllGrow-refl r)

  pub on_state_request-Backs : (msg : Message) → Follows {S = S} Backs (λ r. on_state_request r msg)
  unfolding on_state_request
  on_state_request-Backs msg r r' effects e = ground (arith, AllGrow-refl r)

  pub on_state_reply-Backs : (msg : Message) → Follows {S = S} Backs (λ r. on_state_reply r msg)
  unfolding on_state_reply
  on_state_reply-Backs msg r r' effects e = ground (arith, AllGrow-refl r)
