-- ===== src/Consensus/Backing/RepairHandlers.antt =====
-- What backs the messages of the handlers of REPAIR (raspen/crates/consensus/src/repair.rs).
use raspen.Prelude.{arith}
use raspen.Prelude.HashSet
use raspen.Types.{Message-discrete, Message, KvStoreOps}
use raspen.Consensus.Repair.{
  prepare_quorum, commit_quorum, on_receive_log_msg, on_receive_repair_history,
  on_receive_repair_prepare, on_receive_repair_commit, on_receive_repair_done,
}
use raspen.Consensus.Blocks.{Follows}
use raspen.Consensus.Grows.{Grows-insert, find_map-Found, AllGrow-refl}
use raspen.Consensus.Backing.Evidence.{Backs}

module _ {S : Type 0} ⦃ops : KvStoreOps S⦄ where
  pub on_receive_log_msg-Backs :
      (msg : Message) → Follows {S = S} Backs (λ r. on_receive_log_msg r msg)
  unfolding on_receive_log_msg
  on_receive_log_msg-Backs msg r r' effects e =
      ground (arith, AllGrow-refl r, Grows-insert msg r.state.log_msgs)

  pub on_receive_repair_history-Backs :
      (msg : Message) → Follows {S = S} Backs (λ r. on_receive_repair_history r msg)
  unfolding on_receive_repair_history
  on_receive_repair_history-Backs msg r r' effects e =
      let before = r.state.repair_history_msgs in
      let after = HashSet.insert Message-discrete msg before in
      ground (
        arith,
        AllGrow-refl r,
        Grows-insert msg before,
        find_map-Found r.state.view r.state.round before,
        find_map-Found r.state.view r.state.round after,
      )

  pub on_receive_repair_prepare-Backs :
      (msg : Message) → Follows {S = S} Backs (λ r. on_receive_repair_prepare r msg)
  unfolding on_receive_repair_prepare prepare_quorum
  on_receive_repair_prepare-Backs msg r r' effects e =
      ground (arith, AllGrow-refl r, Grows-insert msg r.state.repair_prepare_msgs)

  pub on_receive_repair_commit-Backs :
      (msg : Message) → Follows {S = S} Backs (λ r. on_receive_repair_commit r msg)
  unfolding on_receive_repair_commit commit_quorum
  on_receive_repair_commit-Backs msg r r' effects e =
      ground (arith, AllGrow-refl r, Grows-insert msg r.state.repair_commit_msgs)

  pub on_receive_repair_done-Backs :
      (msg : Message) → Follows {S = S} Backs (λ r. on_receive_repair_done r msg)
  unfolding on_receive_repair_done
  on_receive_repair_done-Backs msg r r' effects e =
      ground (arith, AllGrow-refl r, Grows-insert msg r.state.repair_done_msgs)
