-- ===== src/Storage/Backends/Rebuild.antt =====
-- What a rebuild does to both backends (`rebuild_from_entries` of
-- raspen/crates/storage/src/kv_store.rs).
use raspen.Prelude.{
  ℕ, ◌+◌, ◌<◌, ◌≡◌, refl, sym, ap, ◌∙◌, Bool, true, false, Option, none, some, List, [], ◌∷◌, ◌++◌,
  ok, arith, bytes_eq_refl, u64_mod, Option-cases, inl, inr, if◌then◌else◌,
}
use raspen.Types.{KvEntry}
use raspen.Storage.BTreeMap
use raspen.Storage.Keys.{entry_key, bytes_leb-entry_key}
use raspen.Storage.Database.{default, meta, last_put, in_range, DbOps, DbLaws, Bincode, BincodeLaws}
use raspen.Storage.MemKvStore
use raspen.Storage.MemKvStore.{MemKvStore, insert_all}
use raspen.Storage.RocksKvStore
use raspen.Storage.RocksKvStore.{
  RocksKvStore, decode_or, meta_kv_size, entry_put, size_put, batch_of, u64_max,
}
use raspen.Storage.Refinement.{get-insert_all}
use raspen.Storage.Backends.Simulation.{Simulates, encoded, last_stored, found_below}
use raspen.Storage.Backends.Batches.{
  AreBelow, last_put-append, last_write-below, with_entries, batched, empty_well,
}

module _ ⦃bincode : Bincode⦄ (bl : BincodeLaws bincode) where
  module _ {D : Type 0} ⦃ops : DbOps D⦄ (dbl : DbLaws D) where
    -- The range that is deleted holds every key of the log.
    in_range-stored :
        (s : RocksKvStore D) (m : MemKvStore) (key value : List ℕ)
        → Simulates dbl bl s m
        → dbl.at s.db default key ≡ some value
        → in_range (entry_key 0) (entry_key u64_max) key ≡ true
    in_range-stored s m key value sim h =
        let (j, k, e, w, named, le, got, decoded, last) = found_below dbl bl s m key value sim h in
        let below : k + 1 < u64_mod = (last_stored dbl bl s m k w sim last).0 in
        let from_zero = bytes_leb-entry_key 0 j (omega arith) (omega arith) in
        let to_max = bytes_leb-entry_key u64_max j (omega arith) (omega arith) in
        rw (named, from_zero, to_max) (ground arith)

    cleared :
        (s : RocksKvStore D) (m : MemKvStore) (key : List ℕ)
        → Simulates dbl bl s m
        → (if in_range (entry_key 0) (entry_key u64_max) key then none else dbl.at s.db default key)
          ≡ none
    cleared s m key sim = elim (Option-cases (dbl.at s.db default key)) [
      | inl empty ↦ rw empty (same_branches (in_range (entry_key 0) (entry_key u64_max) key))
      | inr (value, held) ↦ rw (in_range-stored s m key value sim held)
    ]
      where
        same_branches : (b : Bool) → ◌≡◌ {A = Option (List ℕ)} (if b then none else none) none
        same_branches true = refl
        same_branches false = refl

    -- A rebuild from entries at indices that are `u64`s with a successor succeeds on both backends,
    -- and they hold the same log again.
    pub rebuild-Simulates :
        (s : RocksKvStore D) (m : MemKvStore) (entries : List (ℕ × KvEntry))
        → Simulates dbl bl s m
        → AreBelow entries
        → (s' : RocksKvStore D) × (m' : MemKvStore) × (RocksKvStore.rebuild_from_entries s entries
            ≡ ok s')
          × (MemKvStore.rebuild_from_entries m entries ≡ ok m')
          × Simulates dbl bl s' m'
    unfolding RocksKvStore.rebuild_from_entries MemKvStore.rebuild_from_entries last_put
        BTreeMap.get
    rebuild-Simulates s m entries sim below =
        let (d1, deleted, at1) = dbl.delete_at s.db default (entry_key 0) (entry_key u64_max) in
        let b = batched bl entries [] 0 below in
        let size_bytes = (bl.u64 b.max_idx').0 in
        let (d2, written, at2) = dbl.write_at d1 (b.batch' ++ size_put size_bytes ∷ []) in
        let (empty, none_yet) = empty_well bl m in
        let (well, sized) = b.sized (with_entries m []) empty none_yet in
        (
          record { db = d2 },
          with_entries m (insert_all [] entries),
          rw (deleted, b.runs, (bl.u64 b.max_idx').1, written),
          refl,
          record {
            stored = λ j h.
                at2 default (entry_key j)
                ∙ last_put-append b.batch' (size_put size_bytes ∷ []) default (entry_key j)
                    (dbl.at d1 default (entry_key j))
                ∙ ap (last_put b.batch' default (entry_key j))
                    (at1 default (entry_key j) ∙ cleared s m (entry_key j) sim)
                ∙ b.puts j none h refl
                ∙ ap (encoded bl) (sym (get-insert_all entries [] j));
            only = λ key value h.
                let held : last_put b.batch' default key none ≡ some value =
                  ap (last_put b.batch' default key) (sym (at1 default key ∙ cleared s m key sim))
                  ∙ sym (
                      last_put-append b.batch' (size_put size_bytes ∷ []) default key
                        (dbl.at d1 default key))
                  ∙ sym (at2 default key)
                  ∙ h in
                elim (b.only key value held) [ inl here ↦ here | inr before ↦ cc ];
            counted =
                rw
                  (
                    at2 meta meta_kv_size,
                    last_put-append b.batch' (size_put size_bytes ∷ []) meta meta_kv_size
                        (dbl.at d1 meta meta_kv_size),
                    bytes_eq_refl meta_kv_size,
                    sized,
                  )
                  (bl.u64 b.max_idx').2;
            well = well;
          },
        )

    -- A rebuild from entries at indices that are `u64`s with a successor leaves an entry at the
    -- largest `u64` where it is in the RocksDB backend, and removes it from the in-memory one: the
    -- range that is deleted ends before that index.
    pub rebuild_keeps_max :
        (s : RocksKvStore D) (m : MemKvStore) (entries : List (ℕ × KvEntry))
        → AreBelow entries
        → (s' : RocksKvStore D) × (m' : MemKvStore) × (RocksKvStore.rebuild_from_entries s entries
            ≡ ok s')
          × (MemKvStore.rebuild_from_entries m entries ≡ ok m')
          × (RocksKvStore.get s' u64_max ≡ RocksKvStore.get s u64_max)
          × (MemKvStore.get m' u64_max ≡ ok none)
    unfolding RocksKvStore.rebuild_from_entries MemKvStore.rebuild_from_entries last_put
        BTreeMap.get RocksKvStore.get MemKvStore.get
    rebuild_keeps_max s m entries below =
        let (d1, deleted, at1) = dbl.delete_at s.db default (entry_key 0) (entry_key u64_max) in
        let b = batched bl entries [] 0 below in
        let size_bytes = (bl.u64 b.max_idx').0 in
        let (d2, written, at2) = dbl.write_at d1 (b.batch' ++ size_put size_bytes ∷ []) in
        let top = entry_key u64_max in
        let outside = bytes_leb-entry_key u64_max u64_max (omega arith) (omega arith) in
        let kept : dbl.at d2 default top ≡ dbl.at s.db default top =
          at2 default top
          ∙ last_put-append b.batch' (size_put size_bytes ∷ []) default top (dbl.at d1 default top)
          ∙ b.skips (dbl.at d1 default top) refl
          ∙ at1 default top
          ∙ rw outside (ground arith) in
        (
          record { db = d2 },
          with_entries m (insert_all [] entries),
          rw (deleted, b.runs, (bl.u64 b.max_idx').1, written),
          refl,
          rw (dbl.get_at d2 default top, dbl.get_at s.db default top, kept),
          ap (λ (o : Option KvEntry). ok o)
              (get-insert_all entries [] u64_max
                ∙ last_write-below entries u64_max none below (omega arith)),
        )
