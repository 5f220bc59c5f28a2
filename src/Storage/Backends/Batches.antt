-- ===== src/Storage/Backends/Batches.antt =====
-- The loop of `rebuild_from_entries` of raspen/crates/storage/src/kv_store.rs: the batch that it
-- builds, beside the map that the in-memory backend builds of the same entries.
use Prim.Native.Nat.{max}
use raspen.Prelude.{
  ℕ, ◌+◌, ◌≤◌, ◌<◌, ◌≡◌, refl, sym, ◌∙◌, false, ◌⊎◌, Option, none, some, List, [], ◌∷◌, ◌++◌, ok,
  arith, ltb, ◌==◌, u64_mod, add64, add64_small, inl, inr, if◌then◌else◌,
}
use raspen.Types.{KvEntry}
use raspen.Storage.Contract.{last_write}
use raspen.Storage.BTreeMap
use raspen.Storage.Keys.{entry_key}
use raspen.Storage.Database.{ColumnFamily, default, meta, Write, last_put, Bincode, BincodeLaws}
use raspen.Storage.MemKvStore
use raspen.Storage.MemKvStore.{MemKvStore, insert_all}
use raspen.Storage.RocksKvStore.{entry_put, batch_of, u64_max}
use raspen.Storage.Size.{IsWellFormed, size-put}
use raspen.Storage.Backends.Simulation.{encoded}
use raspen.Storage.Backends.Writes.{entry_put_default, entry_put_only, if_encoded}

-- Every index is a `u64` with a successor.
abbrev pub AreBelow : List (ℕ × KvEntry) → Type 0
AreBelow [] = Unit
AreBelow ((i, e) ∷ rest) = (i + 1 < u64_mod) × AreBelow rest

pub last_put-append :
    (xs ys : List Write) (cf : ColumnFamily) (key : List ℕ) (found : Option (List ℕ))
    → last_put (xs ++ ys) cf key found ≡ last_put ys cf key (last_put xs cf key found)
unfolding last_put
last_put-append [] ys cf key found = refl
last_put-append (x ∷ xs) ys cf key found = last_put-append xs ys cf key _

max_if : (a b : ℕ) → max a b ≡ (if ltb a b then b else a)
max_if a b = ground arith

pub last_write-below :
    (entries : List (ℕ × KvEntry)) (j : ℕ) (found : Option KvEntry)
    → AreBelow entries
    → u64_mod ≤ j + 1
    → last_write entries j found ≡ found
unfolding last_write
last_write-below [] j found below h = refl
last_write-below ((i, e) ∷ rest) j found below h =
    let other : (i == j) ≡ false = ground (arith, below.0) in
    rw other (last_write-below rest j found below.1 h)

abbrev pub with_entries : MemKvStore → List (ℕ × KvEntry) → MemKvStore
with_entries m entries = record m { entries = entries }

module _ ⦃bincode : Bincode⦄ (bl : BincodeLaws bincode) where
  -- What the loop makes of a batch, of the highest size, and of a map of that size.
  pub record Batched (batch : List Write) (max_idx : ℕ) (entries : List (ℕ × KvEntry))
      : Type 0 where
    pub batch' : List Write
    pub max_idx' : ℕ
    pub runs : batch_of batch max_idx entries ≡ ok (batch', max_idx')
    pub puts :
        (j : ℕ) (o : Option KvEntry)
        → j < u64_mod
        → last_put batch default (entry_key j) none ≡ encoded bl o
        → last_put batch' default (entry_key j) none ≡ encoded bl (last_write entries j o)
    pub only :
        (key value : List ℕ)
        → last_put batch' default key none ≡ some value
        → ((j : ℕ) × (j < u64_mod) × (key ≡ entry_key j))
          ⊎ (last_put batch default key none ≡ some value)
    pub skips :
        (found : Option (List ℕ))
        → last_put batch default (entry_key u64_max) found ≡ found
        → last_put batch' default (entry_key u64_max) found ≡ found
    pub quiet :
        (key : List ℕ) (found : Option (List ℕ))
        → last_put batch meta key found ≡ found
        → last_put batch' meta key found ≡ found
    pub sized :
        (m : MemKvStore)
        → IsWellFormed m
        → MemKvStore.size m ≡ max_idx
        → IsWellFormed (with_entries m (insert_all m.entries entries))
          × (MemKvStore.size (with_entries m (insert_all m.entries entries)) ≡ max_idx')

  pub batched :
      (entries : List (ℕ × KvEntry)) (batch : List Write) (max_idx : ℕ)
      → AreBelow entries
      → Batched batch max_idx entries
  unfolding batch_of insert_all last_write last_put
  batched [] batch max_idx below = record {
    batch' = batch;
    max_idx' = max_idx;
    runs = refl;
    puts = λ j o h e. e;
    only = λ key value h. inr h;
    skips = λ found h. h;
    quiet = λ key found h. h;
    sized = λ m w e. (w, e);
  }
  batched ((i, e) ∷ rest) batch max_idx below =
      let value = (bl.entry e).0 in
      let longer = batch ++ entry_put i value ∷ [] in
      let higher = if ltb max_idx (add64 i 1) then add64 i 1 else max_idx in
      let ih = batched rest longer higher below.1 in
      record {
        batch' = ih.batch';
        max_idx' = ih.max_idx';
        runs = rw (bl.entry e).1 ih.runs;
        puts = λ j o h is. ih.puts j (if i == j then some e else o) h (
            last_put-append batch (entry_put i value ∷ []) default (entry_key j) none
            ∙ entry_put_default bl i j value [] (last_put batch default (entry_key j) none)
                (omega (arith, below.0)) h
            ∙ rw is (if_encoded bl (i == j) e o));
        only = λ key bytes h. elim (ih.only key bytes h) [
          | inl later ↦ inl later
          | inr here ↦
              elim (entry_put_only bl i value key bytes [] (last_put batch default key none)
                (λ o. refl)
                (sym (last_put-append batch (entry_put i value ∷ []) default key none) ∙ here)) [
                  | inl same ↦ inl (i, omega (arith, below.0), same)
                  | inr before ↦ inr before
                ]
        ];
        skips = λ found h.
            let other : (i == u64_max) ≡ false = ground (arith, below.0) in
            ih.skips found (
              last_put-append batch (entry_put i value ∷ []) default (entry_key u64_max) found
              ∙ entry_put_default bl i u64_max value []
                  (last_put batch default (entry_key u64_max) found) (omega (arith, below.0))
                  (omega arith)
              ∙ rw other h);
        quiet = λ key found h.
            ih.quiet key found (last_put-append batch (entry_put i value ∷ []) meta key found ∙ h);
        sized = λ m w is.
            let m' : MemKvStore = with_entries m (BTreeMap.insert m.entries i e) in
            let step = size-put m m' i e w below.0 (unfold MemKvStore.put in refl) in
            let counted : MemKvStore.size m' ≡ higher =
              step.1 ∙ rw (is, add64_small i 1 below.0) (max_if max_idx (i + 1)) in
            ih.sized m' step.0 counted;
      }

  pub empty_well :
      (m : MemKvStore)
      → IsWellFormed (with_entries m []) × (MemKvStore.size (with_entries m []) ≡ 0)
  unfolding MemKvStore.size BTreeMap.next_back
  empty_well m = (record { ordered = tt; fits = tt }, refl)
