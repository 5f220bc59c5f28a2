-- ===== src/Storage/Backends/Writes.antt =====
-- What a write of one entry does to both backends (`put` of raspen/crates/storage/src/kv_store.rs).
use Prim.Native.Nat.{max}
use raspen.Prelude.{
  ℕ, ◌+◌, ◌≤◌, ◌<◌, ◌≡◌, refl, sym, ◌∙◌, Bool, true, false, ◌⊎◌, Option, some, List, [], ◌∷◌, ok,
  arith, ltb, ◌==◌, bytes_eq, bytes_eq_iff, bytes_eq_refl, u64_mod, add64_small, Bool-cases, inl,
  inr, if◌then◌else◌,
}
use raspen.Types.{KvEntry}
use raspen.Storage.BTreeMap
use raspen.Storage.BTreeMap.{get-insert}
use raspen.Storage.Keys.{entry_key, bytes_eq-entry_key}
use raspen.Storage.Database.{default, meta, Write, last_put, DbOps, DbLaws, Bincode, BincodeLaws}
use raspen.Storage.MemKvStore
use raspen.Storage.MemKvStore.{MemKvStore}
use raspen.Storage.RocksKvStore
use raspen.Storage.RocksKvStore.{
  RocksKvStore, decode_or, meta_kv_size, size_write, entry_put, size_put,
}
use raspen.Storage.Size.{size-put}
use raspen.Storage.Backends.Simulation.{Simulates, encoded, read_size}

module _ ⦃bincode : Bincode⦄ (bl : BincodeLaws bincode) where
  -- What the write of the size is.
  size_write_lem :
      (current_size new_size : ℕ)
      → (grown : List Write) × (size_write current_size new_size ≡ ok grown)
        × ((key : List ℕ) (found : Option (List ℕ)) → last_put grown default key found ≡ found)
        × ((found : Option (List ℕ))
            → last_put grown meta meta_kv_size found
              ≡ (if ltb current_size new_size then some (bl.u64 new_size).0 else found))
  unfolding size_write last_put
  size_write_lem current_size new_size = elim (Bool-cases (ltb current_size new_size)) [
    | inl grows ↦ (
      size_put (bl.u64 new_size).0 ∷ [],
      rw (grows, (bl.u64 new_size).1),
      (λ key found. refl),
      (λ found. rw (grows, bytes_eq_refl meta_kv_size)),
    )
    | inr stays ↦ ([], rw stays, (λ key found. refl), (λ found. rw stays))
  ]

  -- A put of an entry shows under its own key only.
  pub entry_put_default :
      (i j : ℕ) (value : List ℕ) (writes : List Write) (found : Option (List ℕ))
      → i < u64_mod
      → j < u64_mod
      → last_put (entry_put i value ∷ writes) default (entry_key j) found
        ≡ last_put writes default (entry_key j) (if i == j then some value else found)
  unfolding last_put
  entry_put_default i j value writes found hi hj = rw (bytes_eq-entry_key i j hi hj)

  pub entry_put_meta :
      (i : ℕ) (value key : List ℕ) (writes : List Write) (found : Option (List ℕ))
      → last_put (entry_put i value ∷ writes) meta key found ≡ last_put writes meta key found
  unfolding last_put
  entry_put_meta i value key writes found = refl

  -- A key that has a value after a put of an entry is the key of that entry, or had it before.
  pub entry_put_only :
      (i : ℕ) (bytes key value : List ℕ) (writes : List Write) (found : Option (List ℕ))
      → ((before : Option (List ℕ)) → last_put writes default key before ≡ before)
      → last_put (entry_put i bytes ∷ writes) default key found ≡ some value
      → (key ≡ entry_key i) ⊎ (found ≡ some value)
  unfolding last_put
  entry_put_only i bytes key value writes found quiet h =
      elim (Bool-cases (bytes_eq (entry_key i) key)) [
        | inl same ↦ inl (sym ((bytes_eq_iff (entry_key i) key).0 same))
        | inr other ↦ inr (sym (quiet found) ∙ (rw other at h))
      ]

  pub if_encoded :
      (b : Bool) (e : KvEntry) (o : Option KvEntry)
      → (if b then some (bl.entry e).0 else encoded bl o) ≡ encoded bl (if b then some e else o)
  if_encoded true e o = refl
  if_encoded false e o = refl

  -- The size that is read back after a write that grows it or leaves it.
  read_grown :
      (size new_size : ℕ) (found : Option (List ℕ))
      → size ≤ new_size
      → decode_or bincode.decode_u64 0 found ≡ ok size
      → decode_or bincode.decode_u64 0
          (if ltb size new_size then some (bl.u64 new_size).0 else found)
        ≡ ok new_size
  read_grown size new_size found le h = elim (Bool-cases (ltb size new_size)) [
    | inl grows ↦ rw grows (bl.u64 new_size).2
    | inr stays ↦ let same : new_size ≡ size = ground arith in rw (stays, same) h
  ]

  module _ {D : Type 0} ⦃ops : DbOps D⦄ (dbl : DbLaws D) where
    -- A write at an index that is a `u64` with a successor succeeds on both backends, and they hold
    -- the same log again.
    pub put-Simulates :
        (s : RocksKvStore D) (m : MemKvStore) (i : ℕ) (e : KvEntry)
        → Simulates dbl bl s m
        → i + 1 < u64_mod
        → (s' : RocksKvStore D) × (m' : MemKvStore) × (RocksKvStore.put s i e ≡ ok s')
          × (MemKvStore.put m i e ≡ ok m')
          × Simulates dbl bl s' m'
    unfolding RocksKvStore.put MemKvStore.put
    put-Simulates s m i e sim small =
        let size = MemKvStore.size m in
        let (grown, is_grown, grown_default, grown_meta) = size_write_lem size (max size (i + 1)) in
        let value = (bl.entry e).0 in
        let (d, written, at') = dbl.write_at s.db (entry_put i value ∷ grown) in
        let m' : MemKvStore = record m { entries = BTreeMap.insert m.entries i e } in
        let (well, sized) = size-put m m' i e sim.well small (unfold MemKvStore.put in refl) in
        (
          record { db = d },
          m',
          rw ((bl.entry e).1, read_size dbl bl s m sim, add64_small i 1 small, is_grown, written),
          refl,
          record {
            stored = λ j below.
                at' default (entry_key j)
                ∙ entry_put_default i j value grown (dbl.at s.db default (entry_key j))
                    (omega arith) below
                ∙ grown_default (entry_key j)
                    (if i == j then some value else dbl.at s.db default (entry_key j))
                ∙ rw (sim.stored j below, get-insert m.entries i j e)
                    (if_encoded (i == j) e (BTreeMap.get m.entries j));
            only = λ key bytes h.
                elim (entry_put_only i value key bytes grown (dbl.at s.db default key)
                  (grown_default key) (sym (at' default key) ∙ h)) [
                    | inl same ↦ (i, omega arith, same)
                    | inr before ↦ sim.only key bytes before
                  ];
            counted =
                rw
                  (
                    at' meta meta_kv_size,
                    entry_put_meta i value meta_kv_size grown (dbl.at s.db meta meta_kv_size),
                    grown_meta (dbl.at s.db meta meta_kv_size),
                    sized,
                  )
                  (read_grown size (max size (i + 1)) (dbl.at s.db meta meta_kv_size) (omega arith)
                    sim.counted);
            well = well;
          },
        )
