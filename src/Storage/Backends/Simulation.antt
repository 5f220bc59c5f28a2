-- ===== src/Storage/Backends/Simulation.antt =====
-- When a RocksDB store and an in-memory store hold the same log, and what their readers show then
-- (raspen/crates/storage/src/kv_store.rs).
use raspen.Prelude.{
  ℕ, ◌+◌, ◌≤◌, ◌<◌, ◌≡◌, ◌≢◌, refl, sym, ap, subst, ◌∙◌, true, Option, none, some, List, Result, ok,
  err, arith, leb→le, u64_mod,
}
use raspen.Types.{zero_hash, KvEntry}
use raspen.Storage.BTreeMap
use raspen.Storage.BTreeMap.{get-next_back_from, get-le-next_back_from}
use raspen.Storage.Keys.{entry_key, bytes_leb-entry_key, bytes_leb}
use raspen.Storage.Database.{default, meta, DbOps, DbLaws, Bincode, BincodeLaws, IsLast}
use raspen.Storage.MemKvStore
use raspen.Storage.MemKvStore.{MemKvStore}
use raspen.Storage.RocksKvStore
use raspen.Storage.RocksKvStore.{RocksKvStore, decode_or, decode_found, last_hash, meta_kv_size}
use raspen.Storage.Size.{Fits, IsWellFormed}

module _ ⦃bincode : Bincode⦄ (bl : BincodeLaws bincode) where
  -- The bytes of an entry, where there is one.
  abbrev pub encoded : Option KvEntry → Option (List ℕ)
  encoded none = none
  encoded (some e) = some (bl.entry e).0

module _ {D : Type 0} ⦃ops : DbOps D⦄ ⦃bincode : Bincode⦄ (dbl : DbLaws D)
    (bl : BincodeLaws bincode) where
  -- The database holds the entries of the map under their keys and nothing else, and its `kv_size`.
  pub record Simulates (s : RocksKvStore D) (m : MemKvStore) : Type 0 where
    pub stored :
        (j : ℕ)
        → j < u64_mod
        → dbl.at s.db default (entry_key j) ≡ encoded bl (BTreeMap.get m.entries j)
    pub only :
        (key value : List ℕ)
        → dbl.at s.db default key ≡ some value
        → (j : ℕ) × (j < u64_mod) × (key ≡ entry_key j)
    pub counted :
        decode_or bincode.decode_u64 0 (dbl.at s.db meta meta_kv_size) ≡ ok (MemKvStore.size m)
    pub well : IsWellFormed m

  decode_found-encoded : (o : Option KvEntry) → decode_found (encoded bl o) ≡ ok o
  decode_found-encoded none = refl
  decode_found-encoded (some e) = rw (bl.entry e).2

  pub read_size :
      (s : RocksKvStore D) (m : MemKvStore)
      → Simulates s m
      → RocksKvStore.read_meta_u64 s meta_kv_size ≡ ok (MemKvStore.size m)
  unfolding RocksKvStore.read_meta_u64
  read_size s m sim = rw (dbl.get_at s.db meta meta_kv_size) sim.counted

  pub get-Simulates :
      (s : RocksKvStore D) (m : MemKvStore) (j : ℕ)
      → Simulates s m
      → j < u64_mod
      → RocksKvStore.get s j ≡ MemKvStore.get m j
  unfolding RocksKvStore.get MemKvStore.get
  get-Simulates s m j sim h =
      rw (dbl.get_at s.db default (entry_key j), sim.stored j h)
        (decode_found-encoded (BTreeMap.get m.entries j))

  pub size-Simulates :
      (s : RocksKvStore D) (m : MemKvStore)
      → Simulates s m
      → RocksKvStore.size s ≡ MemKvStore.size m
  unfolding RocksKvStore.size
  size-Simulates s m sim = rw (read_size s m sim)

  pub hash_at-Simulates :
      (s : RocksKvStore D) (m : MemKvStore) (j : ℕ)
      → Simulates s m
      → j < u64_mod
      → RocksKvStore.hash_at s j ≡ MemKvStore.hash_at ⦃codec = bincode.codec⦄ m j
  unfolding RocksKvStore.hash_at MemKvStore.hash_at
  hash_at-Simulates s m j sim h = rw (get-Simulates s m j sim h) (unfold MemKvStore.get in refl)

  encoded-some :
      (o : Option KvEntry) (value : List ℕ)
      → encoded bl o ≡ some value
      → (e : KvEntry) × (o ≡ some e) × (bincode.decode_entry value ≡ ok e)
  encoded-some none value h = cc
  encoded-some (some e) value h =
      (e, refl, subst (λ b. bincode.decode_entry b ≡ ok e) (ground arith) (bl.entry e).2)

  -- The highest pair of the map is in the database.
  pub last_stored :
      (s : RocksKvStore D) (m : MemKvStore) (k : ℕ) (e : KvEntry)
      → Simulates s m
      → BTreeMap.next_back m.entries ≡ some (k, e)
      → (k + 1 < u64_mod)
        × (BTreeMap.get m.entries k ≡ some e)
        × (dbl.at s.db default (entry_key k) ≡ some (bl.entry e).0)
  last_stored s m k e sim h =
      let below : k + 1 < u64_mod = subst Fits h sim.well.fits in
      let found = get-next_back_from 0 m.entries k e sim.well.ordered h in
      (below, found, sim.stored k (omega arith) ∙ ap (encoded bl) found)

  -- A pair of the database is an entry of the map, at an index up to the highest.
  pub found_below :
      (s : RocksKvStore D) (m : MemKvStore) (key value : List ℕ)
      → Simulates s m
      → dbl.at s.db default key ≡ some value
      → (j k : ℕ) × (e w : KvEntry) × (key ≡ entry_key j)
        × (j ≤ k)
        × (BTreeMap.get m.entries j ≡ some e)
        × (bincode.decode_entry value ≡ ok e)
        × (BTreeMap.next_back m.entries ≡ some (k, w))
  found_below s m key value sim h =
      let (j, below, is) = sim.only key value h in
      let here : dbl.at s.db default (entry_key j) ≡ some value =
        subst (λ key'. dbl.at s.db default key' ≡ some value) is h in
      let (e, found, decoded) =
        encoded-some (BTreeMap.get m.entries j) value (sym (sim.stored j below) ∙ here) in
      let (k, w, last, le) = get-le-next_back_from 0 m.entries j e sim.well.ordered found in
      (j, k, e, w, is, le, found, decoded, last)

  -- The last pair of the database is that of the map.
  last_hash-next_back :
      (s : RocksKvStore D) (m : MemKvStore) (last : Option (Result (List ℕ × List ℕ)))
      (found : Option (ℕ × KvEntry))
      → Simulates s m
      → IsLast (dbl.at s.db default) last
      → BTreeMap.next_back m.entries ≡ found
      → last_hash last ≡ elim found [ some (_, e) ↦ e.prev_hash | none ↦ zero_hash ]
  last_hash-next_back s m none none sim is h = refl
  last_hash-next_back s m none (some (k, e)) sim is h =
      let (below, here, there) = last_stored s m k e sim h in cc (is (entry_key k))
  last_hash-next_back s m (some (ok (key, value))) none sim is h =
      let (j, k, e, w, named, le, got, decoded, last) = found_below s m key value sim is.0 in cc
  last_hash-next_back s m (some (ok (key, value))) (some (k, e)) sim is h =
      let (below, here, there) = last_stored s m k e sim h in
      let (j, k', x, w, named, le, got, decoded, last) = found_below s m key value sim is.0 in
      let same : k' ≡ k = ground arith in
      let present : dbl.at s.db default (entry_key k) ≢ none = λ empty. cc in
      let up : bytes_leb (entry_key k) (entry_key j) ≡ true =
        subst (λ key'. bytes_leb (entry_key k) key' ≡ true) named (is.1 (entry_key k) present) in
      let above : k ≤ j =
        leb→le k j (sym (bytes_leb-entry_key k j (omega arith) (omega arith)) ∙ up) in
      let equal : j ≡ k = omega arith in
      let entry : some x ≡ some e = sym got ∙ ap (BTreeMap.get m.entries) equal ∙ here in
      rw decoded (ground arith)
  last_hash-next_back s m (some (err x)) found sim is h = absurd is

  pub top_hash-Simulates :
      (s : RocksKvStore D) (m : MemKvStore)
      → Simulates s m
      → RocksKvStore.top_hash s ≡ MemKvStore.top_hash m
  unfolding RocksKvStore.top_hash MemKvStore.top_hash
  top_hash-Simulates s m sim =
      last_hash-next_back s m (ops.iterator_end s.db) (BTreeMap.next_back m.entries) sim
        (dbl.iterator_at s.db) refl
