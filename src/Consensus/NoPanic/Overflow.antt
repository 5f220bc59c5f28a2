-- ===== src/Consensus/NoPanic/Overflow.antt =====
-- The panic of `handle_state_reply` (raspen/crates/consensus/src/alignment.rs), over the loop of
-- node.rs.
use raspen.Prelude.{
  ℕ, ◌+◌, ◌<◌, ◌≡◌, refl, ap, false, inl, inr, Bool-cases, List, [], ◌∷◌, panic, capacity_overflow,
  leb, arith,
}
use raspen.Types.{Hash, NodeId, state_reply, aligning, KvStoreOps}
use raspen.Consensus.Replica.{Replica}
use raspen.Consensus.FastPath.{on_speculate}
use raspen.Consensus.Checkpoint.{on_sync_threshold, on_receive_sync}
use raspen.Consensus.Alignment.{
  vec_capacity, collect_synthetic, rebuild_synthetic, on_receive_checkpoint, on_state_request,
  on_state_reply,
}
use raspen.Consensus.RepairEntry.{on_conflict, on_receive_timeout, on_proof}
use raspen.Consensus.Dispatch.{run_blocks, process_message}
use raspen.Consensus.Node.{ReplicaInput, message, handle_input, loop, run_node}

module _ {S : Type 0} ⦃ops : KvStoreOps S⦄ where
  rebuild_overflows :
      (kv : S) (count : ℕ)
      → vec_capacity < count
      → rebuild_synthetic kv count ≡ panic capacity_overflow
  unfolding rebuild_synthetic collect_synthetic
  rebuild_overflows kv count many =
      let large : leb count vec_capacity ≡ false = ground arith in rw large

  reply_overflows :
      (r : Replica S) (from : NodeId) (chkpt_idx : ℕ) (chkpt_hash : Hash)
      → r.state.phase ≡ aligning
      → vec_capacity < chkpt_idx + 1
      → process_message r (state_reply from chkpt_idx chkpt_hash) ≡ panic capacity_overflow
  unfolding process_message run_blocks on_speculate on_sync_threshold on_receive_sync
      on_receive_checkpoint on_conflict on_receive_timeout on_proof on_state_request on_state_reply
  reply_overflows r from chkpt_idx chkpt_hash phase many =
      let fails = rebuild_overflows r.state.kv_store (chkpt_idx + 1) many in
      elim (Bool-cases r.state.in_repair) [
        | inl repairing ↦ rw (phase, repairing, fails) refl
        | inr calm ↦ rw (phase, calm, fails) refl
      ]

  -- One STATE-REPLY ends a node in the phase Aligning, if the entries up to its index do not fit in a
  -- `Vec`: its task panics, whatever inputs come after, and the transport is given nothing.
  pub huge_reply_panics :
      (r : Replica S) (from : NodeId) (chkpt_idx : ℕ) (chkpt_hash : Hash)
      (inputs : List ReplicaInput)
      → r.state.phase ≡ aligning
      → vec_capacity < chkpt_idx + 1
      → run_node (message (state_reply from chkpt_idx chkpt_hash) ∷ inputs) r
        ≡ ([], panic capacity_overflow)
  unfolding run_node handle_input
  huge_reply_panics r from chkpt_idx chkpt_hash inputs phase many =
      ap (loop (run_node inputs)) (reply_overflows r from chkpt_idx chkpt_hash phase many)
