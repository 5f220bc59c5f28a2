-- ===== src/Storage/Refinement.antt =====
-- raspen/crates/storage/src/kv_store.rs: the in-memory store and the contract of `KvStoreOps`.
use raspen.Prelude.{
  ℕ, ◌≡◌, refl, ap, ◌∙◌, Option, none, some, List, [], ◌∷◌, ok, ok_or, no_entry, ◌>>=◌,
}
use raspen.Types.{Hash, KvEntry}
use raspen.Storage.Contract.{KvStoreLaws, last_write, hashed}
use raspen.Storage.BTreeMap
use raspen.Storage.BTreeMap.{get-insert}
use raspen.Storage.MemKvStore.{
  MemKvStore, Codec, mem_ops, entry_hash, get, put, hash_at, insert_all, rebuild_from_entries,
}

-- bincode encodes every entry: a `KvEntry` holds nothing that its encoding refuses.
abbrev pub Encodes : Codec → Type 0
Encodes codec = (e : KvEntry) → (bytes : List ℕ) × (codec.encode e ≡ ok bytes)

pub get-insert_all :
    (writes m : List (ℕ × KvEntry)) (j : ℕ)
    → BTreeMap.get (insert_all m writes) j ≡ last_write writes j (BTreeMap.get m j)
unfolding insert_all last_write
get-insert_all [] m j = refl
get-insert_all ((i, e) ∷ writes) m j =
    get-insert_all writes (BTreeMap.insert m i e) j ∙ ap (last_write writes j) (get-insert m i j e)

module _ ⦃codec : Codec⦄ (encodes : Encodes codec) where
  abbrev pub digest_of : KvEntry → Hash
  digest_of e = codec.digest (encodes e).0

  hash_at-hashed :
      (s : MemKvStore) (i : ℕ) → hash_at s i ≡ hashed digest_of i (BTreeMap.get s.entries i)
  unfolding hash_at entry_hash
  hash_at-hashed s i = of_found (BTreeMap.get s.entries i)
    where
      of_found :
          (found : Option KvEntry)
          → (ok_or found (no_entry i) >>= λ e. entry_hash e) ≡ hashed digest_of i found
      of_found none = refl
      of_found (some e) = rw (encodes e).1

  -- If bincode encodes every entry, the in-memory store is a map from indices to entries: `put`
  -- changes one index, a rebuild leaves the last entry written at each index and nothing else,
  -- `hash_at` fails on missing entries only, and no other call fails.
  pub mem_laws : KvStoreLaws MemKvStore
  unfolding get put rebuild_from_entries BTreeMap.get
  mem_laws = record {
    at = λ s i. BTreeMap.get s.entries i;
    hash_of = digest_of;
    get_at = λ s i. refl;
    hash_at_at = hash_at-hashed;
    put_at = λ s i e. (
      record s { entries = BTreeMap.insert s.entries i e },
      refl,
      λ j. get-insert s.entries i j e,
    );
    rebuild_at = λ s writes.
        (record s { entries = insert_all [] writes }, refl, λ j. get-insert_all writes [] j);
  }
