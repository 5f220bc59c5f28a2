-- ===== src/Storage/Contract.antt =====
-- What the consensus crate relies on of a `KvStoreOps` (raspen/crates/types/src/state.rs): the
-- store is a map from indices to entries, and no call of it fails but a hash of a missing entry.
use raspen.Prelude.{
  ℕ, ◌≡◌, Option, none, some, List, [], ◌∷◌, Result, ok, err, no_entry, ◌==◌, if◌then◌else◌,
}
use raspen.Types.{Hash, KvEntry, KvStoreOps}

-- The last entry that a list of writes gives for an index.
unfoldable pub last_write : List (ℕ × KvEntry) → ℕ → Option KvEntry → Option KvEntry
last_write [] j found = found
last_write ((i, e) ∷ writes) j found = last_write writes j (if i == j then some e else found)

-- The hash of an entry that may be missing at an index.
abbrev pub hashed : (KvEntry → Hash) → ℕ → Option KvEntry → Result Hash
hashed hash_of i none = err (no_entry i)
hashed hash_of i (some e) = ok (hash_of e)

pub record KvStoreLaws (S : Type 0) ⦃ops : KvStoreOps S⦄ : Type 0 where
  -- the entry at an index
  pub at : S → ℕ → Option KvEntry
  -- the hash of an entry
  pub hash_of : KvEntry → Hash
  pub get_at : (s : S) (i : ℕ) → ops.get s i ≡ ok (at s i)
  pub hash_at_at : (s : S) (i : ℕ) → ops.hash_at s i ≡ hashed hash_of i (at s i)
  pub put_at :
      (s : S) (i : ℕ) (e : KvEntry)
      → (s' : S) × (ops.put s i e ≡ ok s')
        × ((j : ℕ) → at s' j ≡ (if i == j then some e else at s j))
  pub rebuild_at :
      (s : S) (writes : List (ℕ × KvEntry))
      → (s' : S) × (ops.rebuild_from_entries s writes ≡ ok s')
        × ((j : ℕ) → at s' j ≡ last_write writes j none)
