-- ===== src/Storage/Size.antt =====
-- raspen/crates/storage/src/kv_store.rs: the size and the top hash of the in-memory store.
use Prim.Native.Nat.{max}
use raspen.Prelude.{ℕ, ◌+◌, ◌≤◌, ◌<◌, ◌≡◌, Option, none, some, ok, arith, add64, u64_mod}
use raspen.Types.{KvEntry}
use raspen.Storage.BTreeMap
use raspen.Storage.BTreeMap.{IsOrdered, insert-IsOrdered, next_back-insert}
use raspen.Storage.MemKvStore.{MemKvStore, put, size, top_hash}

-- The highest index of the store, plus one, is a `u64`.
abbrev pub Fits : Option (ℕ × KvEntry) → Type 0
Fits none = Unit {0}
Fits (some (k, _)) = k + 1 < u64_mod

-- The entries stand in the order of their indices, and the size does not overflow.
pub record IsWellFormed (s : MemKvStore) : Type 0 where
  pub ordered : IsOrdered s.entries
  pub fits : Fits (BTreeMap.next_back s.entries)

-- Writing at an index that is a `u64` with a successor keeps the store well-formed, and its size is
-- the larger of the size before and the index plus one.
pub size-put :
    (s s' : MemKvStore) (i : ℕ) (e : KvEntry)
    → IsWellFormed s
    → i + 1 < u64_mod
    → put s i e ≡ ok s'
    → IsWellFormed s' × (size s' ≡ max (size s) (i + 1))
unfolding put size add64
size-put s s' i e w h p =
    ground
      (arith, next_back-insert s.entries i e w.ordered, insert-IsOrdered s.entries i e w.ordered)

-- A write above every other entry makes the top hash the new entry's `prev_hash`, whatever the
-- entry's operation and result are.
pub top_hash-put :
    (s s' : MemKvStore) (i : ℕ) (e : KvEntry)
    → IsWellFormed s
    → size s ≤ i
    → put s i e ≡ ok s'
    → top_hash s' ≡ e.prev_hash
unfolding put size top_hash add64
top_hash-put s s' i e w h p = ground (arith, next_back-insert s.entries i e w.ordered)
