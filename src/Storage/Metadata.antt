-- ===== src/Storage/Metadata.antt =====
-- The checkpoint that the RocksDB backend keeps in its "meta" column family
-- (raspen/crates/storage/src/kv_store.rs).
use raspen.Prelude.{ℕ, ◌≡◌, ok, bytes_eq}
use raspen.Types.{Hash}
use raspen.Storage.Keys.{entry_key}
use raspen.Storage.Database.{default, meta, DbOps, DbLaws, Bincode, BincodeLaws}
use raspen.Storage.RocksKvStore
use raspen.Storage.RocksKvStore.{RocksKvStore, meta_kv_size, meta_chkpt_idx, meta_chkpt_hash}

module _ {D : Type 0} ⦃db : DbOps D⦄ ⦃bincode : Bincode⦄ (dbl : DbLaws D)
    (bl : BincodeLaws bincode) where
  -- Over a database that does not fail, and an encoding that can be read back, the checkpoint index
  -- that is set is read back, and the checkpoint hash, the size and every entry stay what they were.
  pub get_chkpt_idx-set_chkpt_idx :
      (s : RocksKvStore D) (idx j : ℕ)
      → (s' : RocksKvStore D) × (RocksKvStore.set_chkpt_idx s idx ≡ ok s')
        × (RocksKvStore.get_chkpt_idx s' ≡ ok idx)
        × (RocksKvStore.get_chkpt_hash s' ≡ RocksKvStore.get_chkpt_hash s)
        × (RocksKvStore.size s' ≡ RocksKvStore.size s)
        × (RocksKvStore.get s' j ≡ RocksKvStore.get s j)
  unfolding RocksKvStore.set_chkpt_idx RocksKvStore.get_chkpt_idx RocksKvStore.get_chkpt_hash
      RocksKvStore.size RocksKvStore.get bytes_eq
  get_chkpt_idx-set_chkpt_idx s idx j =
      let (bytes, encodes, decodes) = bl.u64 idx in
      let (d, written, at') = dbl.put_at s.db meta meta_chkpt_idx bytes in
      (
        record { db = d },
        rw (encodes, written),
        rw (dbl.get_at d meta meta_chkpt_idx, at' meta meta_chkpt_idx, decodes),
        rw (
          dbl.get_at d meta meta_chkpt_hash,
          at' meta meta_chkpt_hash,
          dbl.get_at s.db meta meta_chkpt_hash,
        ),
        rw (
          dbl.get_at d meta meta_kv_size,
          at' meta meta_kv_size,
          dbl.get_at s.db meta meta_kv_size,
        ),
        rw (
          dbl.get_at d default (entry_key j),
          at' default (entry_key j),
          dbl.get_at s.db default (entry_key j),
        ),
      )

  -- The same conditions: the checkpoint hash that is set is read back, and the checkpoint index, the
  -- size and every entry stay what they were.
  pub get_chkpt_hash-set_chkpt_hash :
      (s : RocksKvStore D) (hash : Hash) (j : ℕ)
      → (s' : RocksKvStore D) × (RocksKvStore.set_chkpt_hash s hash ≡ ok s')
        × (RocksKvStore.get_chkpt_hash s' ≡ ok hash)
        × (RocksKvStore.get_chkpt_idx s' ≡ RocksKvStore.get_chkpt_idx s)
        × (RocksKvStore.size s' ≡ RocksKvStore.size s)
        × (RocksKvStore.get s' j ≡ RocksKvStore.get s j)
  unfolding RocksKvStore.set_chkpt_hash RocksKvStore.get_chkpt_idx RocksKvStore.get_chkpt_hash
      RocksKvStore.size RocksKvStore.get bytes_eq
  get_chkpt_hash-set_chkpt_hash s hash j =
      let (bytes, encodes, decodes) = bl.hash hash in
      let (d, written, at') = dbl.put_at s.db meta meta_chkpt_hash bytes in
      (
        record { db = d },
        rw (encodes, written),
        rw (dbl.get_at d meta meta_chkpt_hash, at' meta meta_chkpt_hash, decodes),
        rw (
          dbl.get_at d meta meta_chkpt_idx,
          at' meta meta_chkpt_idx,
          dbl.get_at s.db meta meta_chkpt_idx,
        ),
        rw (
          dbl.get_at d meta meta_kv_size,
          at' meta meta_kv_size,
          dbl.get_at s.db meta meta_kv_size,
        ),
        rw (
          dbl.get_at d default (entry_key j),
          at' default (entry_key j),
          dbl.get_at s.db default (entry_key j),
        ),
      )
