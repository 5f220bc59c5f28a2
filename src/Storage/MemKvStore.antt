-- ===== src/Storage/MemKvStore.antt =====
-- raspen/crates/storage/src/kv_store.rs: the in-memory backend. The lock of `MemKvStore` is never
-- poisoned here, and a call that writes through it returns the new store.
use raspen.Prelude.{ℕ, Option, none, some, List, [], ◌∷◌, Result, ok, no_entry, ok_or, ◌>>=◌, add64}
use raspen.Types.{Hash, zero_hash, KvEntry, KvStoreOps}
use raspen.Storage.BTreeMap

-- bincode and SHA-256, which the crate takes from outside.
pub record Codec : Type 0 where
  pub encode : KvEntry → Result (List ℕ)
  pub digest : List ℕ → Hash

unfoldable pub entry_hash : ⦃codec : Codec⦄ → KvEntry → Result Hash
entry_hash ⦃codec⦄ entry = do bytes ← codec.encode entry; ok (codec.digest bytes)

-- `MemInner`, behind the lock of `MemKvStore`.
pub record MemKvStore : Type 0 where
  pub entries : List (ℕ × KvEntry)
  pub chkpt_idx : ℕ
  pub chkpt_hash : Hash

abbrev pub new : MemKvStore
new = record { entries = []; chkpt_idx = 0; chkpt_hash = zero_hash }

abbrev pub open_at : Result MemKvStore
open_at = ok new

unfoldable pub get_chkpt_idx : MemKvStore → ℕ
get_chkpt_idx s = s.chkpt_idx

unfoldable pub set_chkpt_idx : MemKvStore → ℕ → MemKvStore
set_chkpt_idx s idx = record s { chkpt_idx = idx }

unfoldable pub get_chkpt_hash : MemKvStore → Hash
get_chkpt_hash s = s.chkpt_hash

unfoldable pub set_chkpt_hash : MemKvStore → Hash → MemKvStore
set_chkpt_hash s hash = record s { chkpt_hash = hash }

unfoldable pub get : MemKvStore → ℕ → Result (Option KvEntry)
get s idx = ok (BTreeMap.get s.entries idx)

unfoldable pub put : MemKvStore → ℕ → KvEntry → Result MemKvStore
put s idx entry = ok (record s { entries = BTreeMap.insert s.entries idx entry })

unfoldable pub size : MemKvStore → ℕ
size s = elim (BTreeMap.next_back s.entries) [ some (k, _) ↦ add64 k 1 | none ↦ 0 ]

unfoldable pub top_hash : MemKvStore → Hash
top_hash s = elim (BTreeMap.next_back s.entries) [ some (_, e) ↦ e.prev_hash | none ↦ zero_hash ]

unfoldable pub hash_at : ⦃codec : Codec⦄ → MemKvStore → ℕ → Result Hash
hash_at s idx = do entry ← ok_or (BTreeMap.get s.entries idx) (no_entry idx); entry_hash entry

-- The loop of `rebuild_from_entries`.
unfoldable pub insert_all : List (ℕ × KvEntry) → List (ℕ × KvEntry) → List (ℕ × KvEntry)
insert_all m [] = m
insert_all m ((idx, entry) ∷ rest) = insert_all (BTreeMap.insert m idx entry) rest

unfoldable pub rebuild_from_entries : MemKvStore → List (ℕ × KvEntry) → Result MemKvStore
unfolding insert_all
rebuild_from_entries s entries = ok (record s { entries = insert_all [] entries })

-- `impl KvStoreOps for MemKvStore`
instance abbrev pub mem_ops : ⦃codec : Codec⦄ → KvStoreOps MemKvStore
mem_ops = record {
  get = get;
  put = put;
  size = size;
  top_hash = top_hash;
  hash_at = hash_at;
  rebuild_from_entries = rebuild_from_entries;
}
