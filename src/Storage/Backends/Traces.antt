-- ===== src/Storage/Backends/Traces.antt =====
-- Sequences of writes to the two backends of raspen/crates/storage/src/kv_store.rs.
use raspen.Prelude.{ℕ, ◌+◌, ◌<◌, ◌≡◌, refl, none, List, [], ◌∷◌, Result, ok, ◌>>=◌, u64_mod, All}
use raspen.Types.{KvEntry, KvStoreOps}
use raspen.Storage.BTreeMap
use raspen.Storage.Database.{ColumnFamily, DbOps, DbLaws, Bincode, BincodeLaws}
use raspen.Storage.MemKvStore
use raspen.Storage.MemKvStore.{MemKvStore, mem_ops}
use raspen.Storage.RocksKvStore
use raspen.Storage.RocksKvStore.{RocksKvStore, rocks_ops}
use raspen.Storage.Backends.Simulation.{
  Simulates, get-Simulates, size-Simulates, hash_at-Simulates, top_hash-Simulates,
}
use raspen.Storage.Backends.Writes.{put-Simulates}
use raspen.Storage.Backends.Batches.{AreBelow}
use raspen.Storage.Backends.Rebuild.{rebuild-Simulates}

-- A call of `KvStoreOps` that writes.
pub data StoreWrite : Type 0 where
  put : ℕ → KvEntry → StoreWrite
  rebuild : List (ℕ × KvEntry) → StoreWrite

-- Its indices are `u64`s with a successor.
abbrev pub IsBelow : StoreWrite → Type 0
IsBelow (put i e) = i + 1 < u64_mod
IsBelow (rebuild entries) = AreBelow entries

module _ {S : Type 0} ⦃ops : KvStoreOps S⦄ where
  unfoldable pub run_write : S → StoreWrite → Result S
  run_write s (put i e) = ops.put s i e
  run_write s (rebuild entries) = ops.rebuild_from_entries s entries

  unfoldable pub run_writes : S → List StoreWrite → Result S
  unfolding run_write
  run_writes s [] = ok s
  run_writes s (w ∷ writes) = run_write s w >>= λ s'. run_writes s' writes

module _ {D : Type 0} ⦃db : DbOps D⦄ ⦃bincode : Bincode⦄ (dbl : DbLaws D)
    (bl : BincodeLaws bincode) where
  run_write-Simulates :
      (s : RocksKvStore D) (m : MemKvStore) (w : StoreWrite)
      → Simulates dbl bl s m
      → IsBelow w
      → (s' : RocksKvStore D) × (m' : MemKvStore) × (run_write s w ≡ ok s')
        × (run_write ⦃ops = mem_ops ⦃codec = bincode.codec⦄⦄ m w ≡ ok m')
        × Simulates dbl bl s' m'
  unfolding run_write
  run_write-Simulates s m (put i e) sim h = put-Simulates bl dbl s m i e sim h
  run_write-Simulates s m (rebuild entries) sim h = rebuild-Simulates bl dbl s m entries sim h

  run_writes-Simulates :
      (writes : List StoreWrite) (s : RocksKvStore D) (m : MemKvStore)
      → Simulates dbl bl s m
      → All IsBelow writes
      → (s' : RocksKvStore D) × (m' : MemKvStore) × (run_writes s writes ≡ ok s')
        × (run_writes ⦃ops = mem_ops ⦃codec = bincode.codec⦄⦄ m writes ≡ ok m')
        × Simulates dbl bl s' m'
  unfolding run_writes
  run_writes-Simulates [] s m sim h = (s, m, refl, refl, sim)
  run_writes-Simulates (w ∷ writes) s m sim h =
      let (s1, m1, is, is', sim1) = run_write-Simulates s m w sim h.0 in
      let (s2, m2, rest, rest', sim2) = run_writes-Simulates writes s1 m1 sim1 h.1 in
      (s2, m2, rw is rest, rw is' rest', sim2)

  -- A database without any key simulates the new in-memory store.
  pub empty-Simulates :
      (d : D)
      → ((cf : ColumnFamily) (key : List ℕ) → dbl.at d cf key ≡ none)
      → Simulates dbl bl (record { db = d }) MemKvStore.new
  unfolding BTreeMap.get BTreeMap.next_back MemKvStore.size
  empty-Simulates d empty = record {
    stored = λ j h. empty _ _;
    only = λ key value h. let none_there = empty ColumnFamily.default key in cc;
    counted = rw (empty ColumnFamily.meta RocksKvStore.meta_kv_size);
    well = record { ordered = tt; fits = tt };
  }

  -- The backends cannot be told apart below the largest `u64`: over a database that is empty at first
  -- and does not fail, and an encoding that can be read back, every sequence of `put`s and rebuilds
  -- at indices that are `u64`s with a successor succeeds on both backends, and afterwards `get` and
  -- `hash_at` give the same at every index of 64 bits, and so do `size` and `top_hash`.
  pub backends_agree :
      (d : D) (writes : List StoreWrite) (j : ℕ)
      → ((cf : ColumnFamily) (key : List ℕ) → dbl.at d cf key ≡ none)
      → All IsBelow writes
      → j < u64_mod
      → (s : RocksKvStore D) × (m : MemKvStore) × (run_writes (record { db = d }) writes ≡ ok s)
        × (run_writes ⦃ops = mem_ops ⦃codec = bincode.codec⦄⦄ MemKvStore.new writes ≡ ok m)
        × (RocksKvStore.get s j ≡ MemKvStore.get m j)
        × (RocksKvStore.hash_at s j ≡ MemKvStore.hash_at ⦃codec = bincode.codec⦄ m j)
        × (RocksKvStore.size s ≡ MemKvStore.size m)
        × (RocksKvStore.top_hash s ≡ MemKvStore.top_hash m)
  backends_agree d writes j empty below h =
      let (s, m, is, is', sim) =
        run_writes-Simulates writes (record { db = d }) MemKvStore.new (empty-Simulates d empty)
          below in
      (
        s,
        m,
        is,
        is',
        get-Simulates dbl bl s m j sim h,
        hash_at-Simulates dbl bl s m j sim h,
        size-Simulates dbl bl s m sim,
        top_hash-Simulates dbl bl s m sim,
      )
