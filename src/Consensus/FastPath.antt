-- ===== src/Consensus/FastPath.antt =====
-- raspen/crates/consensus/src/fast_path.rs: speculative execution of a sequenced request.
use raspen.Prelude.{
  ℕ, ◌-◌, Bool, true, false, not, Option, none, some, [], ◌∷◌, expect, and_then, done, unwrap_or,
  add64, ltb, if◌then◌else◌,
}
use raspen.Types.{
  Hash, zero_hash, Message, speculate, spec_reply, broadcast, phase_eq, speculative, KvEntry,
  KvStoreOps,
}
use raspen.Consensus.Replica.{Replica, Handled, fire}

-- `matches!(msg, Message::Speculate { .. })`
abbrev pub is_speculate : Message → Bool
is_speculate (speculate _ _ _ _) = true
is_speculate _ = false

module _ {S : Type 0} where
  unfoldable pub can_speculate : Replica S → Message → Option ℕ
  can_speculate r msg =
      if not (is_speculate msg)
      then none
      else if not (phase_eq r.state.phase speculative)
      then none
      else some r.state.kv_size

  module _ ⦃ops : KvStoreOps S⦄ where
    -- The hash of the entry before `log_idx`, or zeros for the first entry or a missing one.
    unfoldable pub previous_hash : S → ℕ → Hash
    previous_hash kv log_idx =
        if ltb 0 log_idx then unwrap_or (ops.hash_at kv (log_idx - 1)) zero_hash else zero_hash

    -- The entry that `handle_speculate` appends.
    abbrev pub speculated : S → ℕ → KvEntry
    speculated kv log_idx = record {
      op_hash = log_idx;
      result = [];
      prev_hash = previous_hash kv log_idx;
    }

    unfoldable pub handle_speculate : Replica S → ℕ → Handled S
    handle_speculate r log_idx =
        and_then (expect (ops.put r.state.kv_store log_idx (speculated r.state.kv_store log_idx)))
          λ kv. and_then (expect (ops.hash_at kv log_idx)) λ new_hash. done (
            record r {
              state = record r.state { kv_store = kv; kv_size = add64 r.state.kv_size 1 };
            },
            broadcast (spec_reply r.state.node_id r.state.round log_idx new_hash) ∷ [],
          )

    -- The first block of `process_message`.
    unfoldable pub on_speculate : Replica S → Message → Handled S
    unfolding can_speculate handle_speculate
    on_speculate r msg = fire (can_speculate r msg) r (handle_speculate r)
