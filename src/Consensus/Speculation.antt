-- ===== src/Consensus/Speculation.antt =====
-- What a SPECULATE does to the log (raspen/crates/consensus/src/fast_path.rs).
use raspen.Prelude.{
  ℕ, zero, suc, ◌+◌, ◌-◌, ◌<◌, ◌≡◌, refl, ap, ◌∙◌, true, Option, none, some, List, [], ◌∷◌, ok,
  done, arith, add64, add64_small, unwrap_or, ltb-zero-suc, u64_mod, ◌==◌, if◌then◌else◌,
}
use raspen.Types.{
  Hash, zero_hash, Message, spec_reply, Effect, broadcast, speculative, KvEntry, KvStoreOps,
}
use raspen.Storage.Contract.{KvStoreLaws, hashed}
use raspen.Consensus.Replica.{Replica}
use raspen.Consensus.FastPath.{
  is_speculate, previous_hash, speculated, handle_speculate, on_speculate,
}
use raspen.Consensus.Log.{hash_at-put}

abbrev pub entry_after : ℕ → Hash → KvEntry
entry_after size h = record { op_hash = size; result = []; prev_hash = h }

sub_one : (k : ℕ) → suc k - 1 ≡ k
sub_one k = omega arith

module _ {S : Type 0} ⦃ops : KvStoreOps S⦄ (laws : KvStoreLaws S) where
  -- The hash of an entry, and zeros for none.
  abbrev pub hash_or_zero : Option KvEntry → Hash
  hash_or_zero none = zero_hash
  hash_or_zero (some e) = laws.hash_of e

  -- The hash of the last of the first `size` entries, and zeros if there is none.
  abbrev pub chain_hash : S → ℕ → Hash
  chain_hash kv zero = zero_hash
  chain_hash kv (suc k) = hash_or_zero (laws.at kv k)

  -- The entry that extends the hash chain at `size`.
  abbrev pub next_entry : S → ℕ → KvEntry
  next_entry kv size = record { op_hash = size; result = []; prev_hash = chain_hash kv size }

  pub unwrap_or-hashed :
      (k : ℕ) (found : Option KvEntry)
      → unwrap_or (hashed laws.hash_of k found) zero_hash ≡ hash_or_zero found
  unwrap_or-hashed k none = refl
  unwrap_or-hashed k (some e) = refl

  pub previous_hash-chain_hash : (kv : S) (size : ℕ) → previous_hash kv size ≡ chain_hash kv size
  unfolding previous_hash
  previous_hash-chain_hash kv zero = refl
  previous_hash-chain_hash kv (suc k) =
      rw (ltb-zero-suc k, sub_one k, laws.hash_at_at kv k) (unwrap_or-hashed k (laws.at kv k))

  -- The log is extended by the next entry of the chain, and SPEC-REPLY carries its index and hash.
  pub record Appended (r r' : Replica S) (effects : List Effect) : Type 0 where
    pub log :
        (j : ℕ)
        → laws.at r'.state.kv_store j ≡ (
            if r.state.kv_size == j
            then some (next_entry r.state.kv_store r.state.kv_size)
            else laws.at r.state.kv_store j)
    pub size : r'.state.kv_size ≡ r.state.kv_size + 1
    pub reply :
        effects
        ≡ broadcast (
            spec_reply r.state.node_id r.state.round r.state.kv_size
              (laws.hash_of (next_entry r.state.kv_store r.state.kv_size)))
          ∷ []
    pub phase : r'.state.phase ≡ speculative

  pub fires :
      (msg : Message) (r : Replica S)
      → is_speculate msg ≡ true
      → r.state.phase ≡ speculative
      → on_speculate r msg ≡ handle_speculate r r.state.kv_size
  unfolding on_speculate
  fires msg r is_spec in_phase = ground arith

  pub handle_speculate-returns :
      (r : Replica S) (kv' : S)
      → let size = r.state.kv_size in
        let e = speculated r.state.kv_store size in
        ops.put r.state.kv_store size e ≡ ok kv'
        → ops.hash_at kv' size ≡ ok (laws.hash_of e)
        → handle_speculate r size
          ≡ done (
            record r { state = record r.state { kv_store = kv'; kv_size = add64 size 1 } },
            broadcast (spec_reply r.state.node_id r.state.round size (laws.hash_of e)) ∷ [],
          )
  unfolding handle_speculate
  handle_speculate-returns r kv' put hash = rw (put, hash)

  -- In the phase Speculative, with a log that is not yet 2^64 - 1 entries long, a SPECULATE always
  -- appends one entry at `kv_size`, whose `prev_hash` is the hash of the entry before it (zeros for
  -- the first), changes no other entry, and answers with that index and the new entry's hash.
  pub speculate-Appended :
      (msg : Message) (r : Replica S)
      → is_speculate msg ≡ true
      → r.state.phase ≡ speculative
      → r.state.kv_size + 1 < u64_mod
      → (r' : Replica S) × (effects : List Effect) × (on_speculate r msg ≡ done (r', effects))
        × Appended r r' effects
  speculate-Appended msg r is_spec in_phase small =
      let kv = r.state.kv_store in
      let size = r.state.kv_size in
      let e = speculated kv size in
      let (kv', is, at') = laws.put_at kv size e in
      let chained : e ≡ next_entry kv size =
        ap (λ (h : Hash). entry_after size h) (previous_hash-chain_hash kv size) in
      (
        record r { state = record r.state { kv_store = kv'; kv_size = add64 size 1 } },
        broadcast (spec_reply r.state.node_id r.state.round size (laws.hash_of e)) ∷ [],
        fires msg r is_spec in_phase
            ∙ handle_speculate-returns r kv' is (hash_at-put laws kv' kv size e at'),
        record {
          log = λ j. rw (← chained) (at' j);
          size = add64_small size 1 small;
          reply = rw chained;
          phase = in_phase;
        },
      )
