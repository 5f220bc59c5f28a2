-- ===== src/Consensus/Log.antt =====
-- The entries of a log after the writes of the handlers (the `expect`s of fast_path.rs, alignment.rs
-- and repair.rs under raspen/crates/consensus/src), over a store that keeps the contract.
use raspen.Prelude.{
  ℕ, zero, suc, ◌+◌, ◌≤◌, ◌<◌, ◌≡◌, ap, ◌∙◌, Option, none, some, ok, arith, done, refl, true,
  Returns, ◌==◌, ltb, leb, if◌then◌else◌, ◌⊎◌, inl, inr,
}
use raspen.Types.{KvEntry, KvStoreOps}
use raspen.Storage.Contract.{KvStoreLaws, last_write, hashed}
use raspen.Consensus.Alignment.{
  synthetic, synthetic_from, vec_capacity, collect_synthetic, rebuild_synthetic,
}

last_write-synthetic_from :
    (start count j : ℕ) (found : Option KvEntry)
    → last_write (synthetic_from start count) j found ≡ (
        if leb start j
        then (if ltb j (start + count) then some (synthetic j) else found)
        else found)
unfolding last_write synthetic_from
last_write-synthetic_from start zero j found = ground arith
last_write-synthetic_from start (suc count) j found = ground (
  arith,
  last_write-synthetic_from (start + 1) count j found,
  last_write-synthetic_from (start + 1) count j (some (synthetic start)),
)

last_or_below : (k size : ℕ) → k < size + 1 → (size ≡ k) ⊎ (k < size)
last_or_below k size h = omega arith

-- The entries that a rebuild of `count` entries leaves.
pub rebuilt :
    (count j : ℕ)
    → last_write (synthetic_from 0 count) j none
      ≡ (if ltb j count then some (synthetic j) else none)
rebuilt count j = ground (arith, last_write-synthetic_from 0 count j none)

module _ {S : Type 0} ⦃ops : KvStoreOps S⦄ (laws : KvStoreLaws S) where
  -- There is an entry at every index below `size`.
  pub record IsFilled (kv : S) (size : ℕ) : Type 0 where
    pub entry : (k : ℕ) → k < size → (e : KvEntry) × (laws.at kv k ≡ some e)

  -- A write at the end fills one more index.
  pub put-IsFilled :
      (kv kv' : S) (size : ℕ) (e : KvEntry)
      → ((j : ℕ) → laws.at kv' j ≡ (if size == j then some e else laws.at kv j))
      → IsFilled kv size
      → IsFilled kv' (size + 1)
  put-IsFilled kv kv' size e at' filled = record {
    entry = λ k h. found k h (last_or_below k size h);
  }
    where
      found :
          (k : ℕ)
          → k < size + 1
          → (size ≡ k) ⊎ (k < size)
          → (e : KvEntry) × (laws.at kv' k ≡ some e)
      found k h (inl here) = (e, ground (arith, at' k))
      found k h (inr below) = let (old, is) = filled.entry k below in (old, ground (arith, at' k))

  -- A rebuild whose entries fit in a `Vec` returns, with just these entries in the log.
  pub rebuild_synthetic-done :
      (kv : S) (count : ℕ)
      → count ≤ vec_capacity
      → (kv' : S) × (rebuild_synthetic kv count ≡ done kv')
        × ((j : ℕ) → laws.at kv' j ≡ (if ltb j count then some (synthetic j) else none))
  unfolding rebuild_synthetic collect_synthetic
  rebuild_synthetic-done kv count fits =
      let (kv', is, at') = laws.rebuild_at kv (synthetic_from 0 count) in
      let small : leb count vec_capacity ≡ true = ground arith in
      (kv', rw (small, is) refl, λ j. at' j ∙ rebuilt count j)

  -- A rebuild of `count` entries fills the indices below `count`.
  pub rebuild-IsFilled :
      (kv : S) (count : ℕ)
      → count ≤ vec_capacity
      → Returns (λ kv'. IsFilled kv' count) (rebuild_synthetic kv count)
  rebuild-IsFilled kv count fits =
      let (kv', is, at') = rebuild_synthetic-done kv count fits in
      rw is (record { entry = λ k h. (synthetic k, ground (arith, at' k)) })

  -- Fewer indices are filled too.
  pub IsFilled-weaken : (kv : S) (few many : ℕ) → few ≤ many → IsFilled kv many → IsFilled kv few
  IsFilled-weaken kv few many h filled = record { entry = λ k lt. filled.entry k (omega arith) }

  -- Right after a write the hash of the entry is there.
  pub hash_at-put :
      (kv' : S) (kv : S) (size : ℕ) (e : KvEntry)
      → ((j : ℕ) → laws.at kv' j ≡ (if size == j then some e else laws.at kv j))
      → ops.hash_at kv' size ≡ ok (laws.hash_of e)
  hash_at-put kv' kv size e at' =
      let here : laws.at kv' size ≡ some e = ground (arith, at' size) in
      laws.hash_at_at kv' size ∙ ap (hashed laws.hash_of size) here
