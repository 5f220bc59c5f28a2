-- ===== src/Consensus/NoPanic.antt =====
-- The calls of fast_path.rs, alignment.rs and repair.rs (under raspen/crates/consensus/src) that may
-- panic, over a store that keeps the contract.
pub mod Sizes
pub mod Safe
pub mod Overflow
use raspen.Prelude.{ℕ, suc, ◌+◌, ◌≤◌, length, Returns, Returns-weaken}
use raspen.Types.{Message, Event, KvStoreOps}
use raspen.Storage.Contract.{KvStoreLaws}
use raspen.Consensus.Replica.{Replica}
use raspen.Consensus.Alignment.{vec_capacity}
use raspen.Consensus.Dispatch.{
  run_blocks, message_blocks, event_blocks, process_message, handle_event,
}
use raspen.Consensus.Blocks.{All-message_blocks, All-event_blocks}
use raspen.Consensus.Keeps.{Keeps, run_blocks-Keeps}
use raspen.Consensus.NoPanic.Sizes.{Fits, IsDense, room_before, room_after}
use raspen.Consensus.NoPanic.Safe.{IsReady, IsSafe, IsCalm, message-IsSafe, event-IsSafe}

module _ {S : Type 0} ⦃ops : KvStoreOps S⦄ (laws : KvStoreLaws S) where
  -- Over a store that keeps its contract, a replica with a dense log and bounded sizes (`IsDense`)
  -- handles without a panic every message that asks for a rebuild that fits in a `Vec` (`Fits`), if
  -- the LOGs that it holds, this message and `spare` more are no more than fit in one; its log is
  -- dense and its sizes are bounded again, and there is room for `spare` more LOGs.
  pub process_message-IsSafe :
      (msg : Message) (spare : ℕ) (r : Replica S)
      → Fits msg
      → IsDense laws r
      → length r.state.log_msgs + suc spare ≤ vec_capacity
      → Returns
          (λ x. IsDense laws x.0 × (length x.0.state.log_msgs + spare ≤ vec_capacity))
          (process_message r msg)
  unfolding process_message
  process_message-IsSafe msg spare r fits d few =
      Returns-weaken (λ x. IsReady laws msg spare x.0)
        (λ x. IsDense laws x.0 × (length x.0.state.log_msgs + spare ≤ vec_capacity))
        (run_blocks (message_blocks msg) r)
        (run_blocks-Keeps (IsReady laws msg spare) (message_blocks msg)
          (All-message_blocks (IsSafe laws msg spare) msg (message-IsSafe laws msg spare fits)) r
          (d, room_before msg spare r few))
        λ x ready. (ready.0, room_after msg spare x.0 ready.1)

  -- Over a store that keeps its contract, a replica with a dense log and bounded sizes handles every
  -- timer event without a panic, its log is dense and its sizes are bounded again, and it has room for
  -- as many LOGs as before.
  pub handle_event-IsSafe :
      (event : Event) (spare : ℕ) (r : Replica S)
      → IsDense laws r
      → length r.state.log_msgs + spare ≤ vec_capacity
      → Returns
          (λ x. IsDense laws x.0 × (length x.0.state.log_msgs + spare ≤ vec_capacity))
          (handle_event r event)
  unfolding handle_event
  handle_event-IsSafe event spare r d room =
      run_blocks-Keeps (IsCalm laws spare) (event_blocks event)
        (All-event_blocks (Keeps (IsCalm laws spare)) event (event-IsSafe laws event spare)) r
        (d, room)
