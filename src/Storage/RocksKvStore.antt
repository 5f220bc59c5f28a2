-- ===== src/Storage/RocksKvStore.antt =====
-- raspen/crates/storage/src/kv_store.rs: the RocksDB backend (`mod rocks`, behind the feature
-- `rocksdb-backend`). A handle of the store is the database behind it; both column families are
-- there once it is open, so that the `expect`s on their handles are met.
use Prim.Native.Nat.{max}
use raspen.Prelude.{
  ℕ, Option, none, some, List, [], ◌∷◌, ◌++◌, Result, ok, err, no_entry, ok_or, ◌>>=◌, unwrap_or,
  add64, ltb, u64_mod, ◌-◌, if◌then◌else◌,
}
use raspen.Types.{Hash, zero_hash, KvEntry, KvStoreOps}
use raspen.Storage.Keys.{entry_key}
use raspen.Storage.MemKvStore.{entry_hash}
use raspen.Storage.Database.{default, meta, Write, DbOps, Bincode}

-- "kv_size"
abbrev pub meta_kv_size : List ℕ
meta_kv_size = b'k' ∷ b'v' ∷ b'_' ∷ b's' ∷ b'i' ∷ b'z' ∷ b'e' ∷ []

-- "chkpt_idx"
abbrev pub meta_chkpt_idx : List ℕ
meta_chkpt_idx = b'c' ∷ b'h' ∷ b'k' ∷ b'p' ∷ b't' ∷ b'_' ∷ b'i' ∷ b'd' ∷ b'x' ∷ []

-- "chkpt_hash"
abbrev pub meta_chkpt_hash : List ℕ
meta_chkpt_hash = b'c' ∷ b'h' ∷ b'k' ∷ b'p' ∷ b't' ∷ b'_' ∷ b'h' ∷ b'a' ∷ b's' ∷ b'h' ∷ []

abbrev pub u64_max : ℕ
u64_max = u64_mod - 1

-- `RocksKvStore`
pub record RocksKvStore (D : Type 0) : Type 0 where
  pub db : D

-- `match found { Some(v) => decode(&v), None => Ok(missing) }`
abbrev pub decode_or : {A : Type 0} → (List ℕ → Result A) → A → Option (List ℕ) → Result A
decode_or decode missing none = ok missing
decode_or decode missing (some bytes) = decode bytes

-- `batch.put(entry_key(idx), value)`
abbrev pub entry_put : ℕ → List ℕ → Write
entry_put idx value = record { cf = default; key = entry_key idx; value = value }

-- `batch.put_cf(self.meta_cf(), META_KV_SIZE, size_bytes)`
abbrev pub size_put : List ℕ → Write
size_put bytes = record { cf = meta; key = meta_kv_size; value = bytes }

module _ ⦃bincode : Bincode⦄ where
  -- `Some(bytes) => Ok(Some(decode(&bytes)?)), None => Ok(None)`
  abbrev pub decode_found : Option (List ℕ) → Result (Option KvEntry)
  decode_found none = ok none
  decode_found (some bytes) = bincode.decode_entry bytes >>= λ entry. ok (some entry)

  -- The write of the size, if it grows.
  unfoldable pub size_write : (current_size new_size : ℕ) → Result (List Write)
  size_write current_size new_size =
      if ltb current_size new_size
      then (bincode.encode_u64 new_size >>= λ bytes. ok (size_put bytes ∷ []))
      else ok []

  abbrev pub prev_hash_of : Result KvEntry → Hash
  prev_hash_of (ok entry) = entry.prev_hash
  prev_hash_of (err e) = zero_hash

  abbrev pub last_hash : Option (Result (List ℕ × List ℕ)) → Hash
  last_hash (some (ok (_, value))) = prev_hash_of (bincode.decode_entry value)
  last_hash _ = zero_hash

  -- The loop of `rebuild_from_entries`: the puts of the batch, and the size.
  unfoldable pub batch_of : List Write → ℕ → List (ℕ × KvEntry) → Result (List Write × ℕ)
  batch_of batch max_idx [] = ok (batch, max_idx)
  batch_of batch max_idx ((idx, entry) ∷ rest) = bincode.codec.encode entry >>= λ value.
      batch_of (batch ++ entry_put idx value ∷ [])
        (if ltb max_idx (add64 idx 1) then add64 idx 1 else max_idx) rest

module _ {D : Type 0} ⦃ops : DbOps D⦄ ⦃bincode : Bincode⦄ where
  unfoldable pub open_with : Result D → Result (RocksKvStore D)
  open_with opened = do db ← opened; ok (record { db = db })

  unfoldable pub read_meta_u64 : RocksKvStore D → List ℕ → Result ℕ
  read_meta_u64 s key = do found ← ops.get_cf s.db meta key; decode_or bincode.decode_u64 0 found

  unfoldable pub write_meta_u64 : RocksKvStore D → List ℕ → ℕ → Result (RocksKvStore D)
  write_meta_u64 s key value = do
    encoded ← bincode.encode_u64 value
    db ← ops.put_cf s.db meta key encoded
    ok (record { db = db })

  unfoldable pub get_chkpt_idx : RocksKvStore D → Result ℕ
  unfolding read_meta_u64
  get_chkpt_idx s = read_meta_u64 s meta_chkpt_idx

  unfoldable pub set_chkpt_idx : RocksKvStore D → ℕ → Result (RocksKvStore D)
  unfolding write_meta_u64
  set_chkpt_idx s idx = write_meta_u64 s meta_chkpt_idx idx

  unfoldable pub get_chkpt_hash : RocksKvStore D → Result Hash
  get_chkpt_hash s = do
    found ← ops.get_cf s.db meta meta_chkpt_hash
    decode_or bincode.decode_hash zero_hash found

  unfoldable pub set_chkpt_hash : RocksKvStore D → Hash → Result (RocksKvStore D)
  set_chkpt_hash s hash = do
    encoded ← bincode.encode_hash hash
    db ← ops.put_cf s.db meta meta_chkpt_hash encoded
    ok (record { db = db })

  unfoldable pub get : RocksKvStore D → ℕ → Result (Option KvEntry)
  get s idx = do found ← ops.get_cf s.db default (entry_key idx); decode_found found

  unfoldable pub put : RocksKvStore D → ℕ → KvEntry → Result (RocksKvStore D)
  unfolding read_meta_u64 size_write
  put s idx entry = do
    value ← bincode.codec.encode entry
    current_size ← read_meta_u64 s meta_kv_size
    grown ← size_write current_size (max current_size (add64 idx 1))
    db ← ops.write s.db (entry_put idx value ∷ grown)
    ok (record { db = db })

  unfoldable pub size : RocksKvStore D → ℕ
  unfolding read_meta_u64
  size s = unwrap_or (read_meta_u64 s meta_kv_size) 0

  unfoldable pub top_hash : RocksKvStore D → Hash
  top_hash s = last_hash (ops.iterator_end s.db)

  unfoldable pub hash_at : RocksKvStore D → ℕ → Result Hash
  unfolding get
  hash_at s idx = do
    found ← get s idx
    entry ← ok_or found (no_entry idx)
    entry_hash ⦃codec = bincode.codec⦄ entry

  unfoldable pub rebuild_from_entries :
      RocksKvStore D → List (ℕ × KvEntry) → Result (RocksKvStore D)
  unfolding batch_of
  rebuild_from_entries s entries = do
    db ← ops.delete_range_cf s.db default (entry_key 0) (entry_key u64_max)
    (batch, max_idx) ← batch_of [] 0 entries
    size_bytes ← bincode.encode_u64 max_idx
    written ← ops.write db (batch ++ size_put size_bytes ∷ [])
    ok (record { db = written })

  -- `impl KvStoreOps for RocksKvStore`
  instance abbrev pub rocks_ops : KvStoreOps (RocksKvStore D)
  rocks_ops = record {
    get = get;
    put = put;
    size = size;
    top_hash = top_hash;
    hash_at = hash_at;
    rebuild_from_entries = rebuild_from_entries;
  }
