-- ===== src/Storage/Database.antt =====
-- RocksDB and bincode, as raspen/crates/storage/src/kv_store.rs uses them, with what it relies on:
-- a database is a map from a column family and a key to a value, a batch is written whole, and an
-- iterator from the end finds the greatest key.
use raspen.Prelude.{
  ℕ, ◌≡◌, ◌≢◌, Bool, true, false, not, ◌&&◌, Option, none, some, List, [], ◌∷◌, Result, ok, err,
  bytes_eq, if◌then◌else◌,
}
use raspen.Types.{Hash, KvEntry}
use raspen.Storage.Keys.{bytes_leb}
use raspen.Storage.MemKvStore.{Codec}

-- The column families that `RocksKvStore::open` creates.
pub data ColumnFamily : Type 0 where
  default meta : ColumnFamily

abbrev pub cf_eq : ColumnFamily → ColumnFamily → Bool
cf_eq default default = true
cf_eq meta meta = true
cf_eq _ _ = false

-- A `put` of a `WriteBatch`.
pub record Write : Type 0 where
  pub cf : ColumnFamily
  pub key : List ℕ
  pub value : List ℕ

-- The calls of `rocksdb::DB`. One that writes returns the new database.
pub record DbOps (D : Type 0) : Type 0 where
  pub get_cf : D → ColumnFamily → List ℕ → Result (Option (List ℕ))
  pub put_cf : D → ColumnFamily → List ℕ → List ℕ → Result D
  pub write : D → List Write → Result D
  -- deletes the keys from the first to the second, without the second
  pub delete_range_cf : D → ColumnFamily → List ℕ → List ℕ → Result D
  -- `iterator(IteratorMode::End).next()`
  pub iterator_end : D → Option (Result (List ℕ × List ℕ))

-- bincode, also for the types that only the RocksDB backend stores.
pub record Bincode : Type 0 where
  pub codec : Codec
  pub decode_entry : List ℕ → Result KvEntry
  pub encode_u64 : ℕ → Result (List ℕ)
  pub decode_u64 : List ℕ → Result ℕ
  pub encode_hash : Hash → Result (List ℕ)
  pub decode_hash : List ℕ → Result Hash

-- What is encoded is decoded to the same value.
pub record BincodeLaws (bincode : Bincode) : Type 0 where
  pub entry :
      (e : KvEntry)
      → (b : List ℕ) × (bincode.codec.encode e ≡ ok b) × (bincode.decode_entry b ≡ ok e)
  pub u64 : (n : ℕ) → (b : List ℕ) × (bincode.encode_u64 n ≡ ok b) × (bincode.decode_u64 b ≡ ok n)
  pub hash :
      (h : Hash) → (b : List ℕ) × (bincode.encode_hash h ≡ ok b) × (bincode.decode_hash b ≡ ok h)

abbrev pub writes_to : Write → ColumnFamily → List ℕ → Bool
writes_to w cf key = cf_eq w.cf cf && bytes_eq w.key key

-- The value under a key after the puts of a batch, in order.
unfoldable pub last_put : List Write → ColumnFamily → List ℕ → Option (List ℕ) → Option (List ℕ)
last_put [] cf key found = found
last_put (w ∷ writes) cf key found =
    last_put writes cf key (if writes_to w cf key then some w.value else found)

-- `low ≤ key < high`
abbrev pub in_range : (low high key : List ℕ) → Bool
in_range low high key = bytes_leb low key && not (bytes_leb high key)

-- What an iterator from the end finds: nothing in an empty family, or the greatest key.
abbrev pub IsLast : (List ℕ → Option (List ℕ)) → Option (Result (List ℕ × List ℕ)) → Type 0
IsLast values none = (key : List ℕ) → values key ≡ none
IsLast values (some (ok (key, value))) =
    (values key ≡ some value)
    × ((other : List ℕ) → values other ≢ none → bytes_leb other key ≡ true)
IsLast values (some (err e)) = ⊥

-- A database that does not fail.
pub record DbLaws (D : Type 0) ⦃db : DbOps D⦄ : Type 0 where
  -- the value under a key
  pub at : D → ColumnFamily → List ℕ → Option (List ℕ)
  pub get_at : (d : D) (cf : ColumnFamily) (key : List ℕ) → db.get_cf d cf key ≡ ok (at d cf key)
  pub put_at :
      (d : D) (cf : ColumnFamily) (key value : List ℕ)
      → (d' : D) × (db.put_cf d cf key value ≡ ok d')
        × ((cf' : ColumnFamily) (other : List ℕ)
            → at d' cf' other
              ≡ (if cf_eq cf cf' && bytes_eq key other then some value else at d cf' other))
  pub write_at :
      (d : D) (batch : List Write)
      → (d' : D) × (db.write d batch ≡ ok d')
        × ((cf : ColumnFamily) (key : List ℕ) → at d' cf key ≡ last_put batch cf key (at d cf key))
  pub delete_at :
      (d : D) (cf : ColumnFamily) (low high : List ℕ)
      → (d' : D) × (db.delete_range_cf d cf low high ≡ ok d')
        × ((cf' : ColumnFamily) (key : List ℕ)
            → at d' cf' key
              ≡ (if cf_eq cf cf' && in_range low high key then none else at d cf' key))
  pub iterator_at : (d : D) → IsLast (at d default) (db.iterator_end d)
