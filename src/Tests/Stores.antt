-- ===== src/Tests/Stores.antt =====
-- The theorems of the store and of the sequencer, at concrete inputs.
use Prim.Native.Nat.{max}
use raspen.Prelude.{ℕ, get_elem?, some, ◌+◌, ◌≡◌, refl, ok, List, [], ◌∷◌, ◌++◌, arith, add64}
use raspen.Types.{Hash, zero_hash}
use raspen.Storage.Contract.{KvStoreLaws}
use raspen.Storage.BTreeMap
use raspen.Storage.MemKvStore
use raspen.Storage.MemKvStore.{MemKvStore, mem_ops}
use raspen.Storage.Refinement.{mem_laws}
use raspen.Storage.Size.{IsWellFormed, size-put, top_hash-put}
use raspen.Storage.Keys.{entry_key, bytes_leb, bytes_leb-entry_key}
use raspen.Storage.RocksKvStore
use raspen.Storage.RocksKvStore.{RocksKvStore, rocks_ops, u64_max}
use raspen.Storage.Backends.Traces.{StoreWrite, put, rebuild, IsBelow, run_writes, backends_agree}
use raspen.Storage.Backends.Rebuild.{rebuild_keeps_max}
use raspen.Storage.Metadata.{get_chkpt_idx-set_chkpt_idx, get_chkpt_hash-set_chkpt_hash}
use raspen.Tests.ToyDatabase.{
  ToyDb, toy_db, toy_db_laws, toy_bincode, toy_bincode_laws, empty_db, empty_db-at,
}
use raspen.Prelude.{none, All, leb}
use raspen.Sequencer
use raspen.Sequencer.Concurrent.{
  Race, idle, assign, send, take_at, Reach, none_yet, assigned, broadcasted, owners, owners-Reach,
}
use raspen.Types.{node_name, node_names, for_test}
use raspen.Types.Names.{for_test_names, for_test_quorums}
use raspen.Prelude.{◌<◌, length, ltb, if◌then◌else◌, ◌≤◌}
use raspen.Sequencer.{
  sequencer_name, Sequencer, submit_all, etas_from, messages_from, submit_all-consecutive,
}
use raspen.Tests.Fixtures.{toy_codec, toy_encodes, entry, one_entry, two_entries}

mem_laws_example : KvStoreLaws MemKvStore
mem_laws_example = mem_laws toy_encodes

one_entry-IsWellFormed : IsWellFormed one_entry
unfolding BTreeMap.next_back
one_entry-IsWellFormed = record { ordered = omega arith; fits = omega arith }

put_four : MemKvStore.put one_entry 4 (entry 4) ≡ ok two_entries
unfolding MemKvStore.put BTreeMap.insert
put_four = refl

one_entry-size : MemKvStore.size one_entry ≡ 1
unfolding MemKvStore.size BTreeMap.next_back add64
one_entry-size = refl

size-put_example :
    IsWellFormed two_entries
    × (MemKvStore.size two_entries ≡ max (MemKvStore.size one_entry) (4 + 1))
size-put_example =
    size-put one_entry two_entries 4 (entry 4) one_entry-IsWellFormed (omega arith) put_four

top_hash-put_example : MemKvStore.top_hash two_entries ≡ (entry 4).prev_hash
top_hash-put_example =
    top_hash-put one_entry two_entries 4 (entry 4) one_entry-IsWellFormed
      (rw one_entry-size (omega arith)) put_four

abbrev two_ops : List Hash
two_ops = zero_hash ∷ (1 ∷ []) ∷ []

submit_all-consecutive_example :
    ((submit_all Sequencer.new two_ops).1 ≡ etas_from 0 two_ops)
    × ((submit_all Sequencer.new two_ops).0.sent ≡ [] ++ messages_from 0 two_ops)
    × ((submit_all Sequencer.new two_ops).0.eta ≡ 0 + 2)
submit_all-consecutive_example = submit_all-consecutive Sequencer.new two_ops (omega arith)

two_writes : List StoreWrite
two_writes = put 4 (entry 4) ∷ rebuild ((0, entry 0) ∷ (1, entry 1) ∷ []) ∷ []

two_writes-IsBelow : All IsBelow two_writes
unfolding two_writes
two_writes-IsBelow = omega arith

backends_agree_example :
    (s : RocksKvStore ToyDb) × (m : MemKvStore) × (run_writes (record { db = empty_db }) two_writes
      ≡ ok s)
    × (run_writes ⦃ops = mem_ops ⦃codec = toy_bincode.codec⦄⦄ MemKvStore.new two_writes ≡ ok m)
    × (RocksKvStore.get s 1 ≡ MemKvStore.get m 1)
    × (RocksKvStore.hash_at s 1 ≡ MemKvStore.hash_at ⦃codec = toy_bincode.codec⦄ m 1)
    × (RocksKvStore.size s ≡ MemKvStore.size m)
    × (RocksKvStore.top_hash s ≡ MemKvStore.top_hash m)
backends_agree_example =
    backends_agree toy_db_laws toy_bincode_laws empty_db two_writes 1 empty_db-at two_writes-IsBelow
      (omega arith)

rebuild_keeps_max_example :
    (s' : RocksKvStore ToyDb) × (m' : MemKvStore) × (RocksKvStore.rebuild_from_entries
        (record { db = empty_db })
        ((0, entry 0) ∷ [])
      ≡ ok s')
    × (MemKvStore.rebuild_from_entries one_entry ((0, entry 0) ∷ []) ≡ ok m')
    × (RocksKvStore.get s' u64_max ≡ RocksKvStore.get (record { db = empty_db }) u64_max)
    × (MemKvStore.get m' u64_max ≡ ok none)
rebuild_keeps_max_example =
    rebuild_keeps_max toy_bincode_laws toy_db_laws (record { db = empty_db }) one_entry
      ((0, entry 0) ∷ []) (omega arith)

get_chkpt_idx-set_chkpt_idx_example :
    (s' : RocksKvStore ToyDb) × (RocksKvStore.set_chkpt_idx (record { db = empty_db }) 3 ≡ ok s')
    × (RocksKvStore.get_chkpt_idx s' ≡ ok 3)
    × (RocksKvStore.get_chkpt_hash s' ≡ RocksKvStore.get_chkpt_hash (record { db = empty_db }))
    × (RocksKvStore.size s' ≡ RocksKvStore.size (record { db = empty_db }))
    × (RocksKvStore.get s' 0 ≡ RocksKvStore.get (record { db = empty_db }) 0)
get_chkpt_idx-set_chkpt_idx_example =
    get_chkpt_idx-set_chkpt_idx toy_db_laws toy_bincode_laws (record { db = empty_db }) 3 0

get_chkpt_hash-set_chkpt_hash_example :
    (s' : RocksKvStore ToyDb) × (RocksKvStore.set_chkpt_hash (record { db = empty_db }) zero_hash
      ≡ ok s')
    × (RocksKvStore.get_chkpt_hash s' ≡ ok zero_hash)
    × (RocksKvStore.get_chkpt_idx s' ≡ RocksKvStore.get_chkpt_idx (record { db = empty_db }))
    × (RocksKvStore.size s' ≡ RocksKvStore.size (record { db = empty_db }))
    × (RocksKvStore.get s' 0 ≡ RocksKvStore.get (record { db = empty_db }) 0)
get_chkpt_hash-set_chkpt_hash_example =
    get_chkpt_hash-set_chkpt_hash toy_db_laws toy_bincode_laws (record { db = empty_db }) zero_hash
      0

bytes_leb-entry_key_example : bytes_leb (entry_key 255) (entry_key 256) ≡ leb 255 256
bytes_leb-entry_key_example = bytes_leb-entry_key 255 256 (omega arith) (omega arith)

-- Two clients: the first has sent, the second has its number.
raced : Race
unfolding assign send
raced =
    send (assign (assign idle zero_hash) zero_hash) (record { op_hash = zero_hash; eta = 0 })
      (record { op_hash = zero_hash; eta = 1 } ∷ [])

raced-Reach : Reach 2 raced
unfolding raced take_at assign send add64
raced-Reach =
    broadcasted 0 (record { op_hash = zero_hash; eta = 0 })
      (record { op_hash = zero_hash; eta = 1 } ∷ [])
      (assigned zero_hash (assigned zero_hash none_yet)) refl

owners-Reach_example : (raced.counter ≡ 2) × (owners 1 raced ≡ (if ltb 1 2 then 1 else 0))
owners-Reach_example = owners-Reach 2 1 raced raced-Reach (omega arith)

fourth_name : get_elem? (for_test 6 1 1).nodes_ordered 3 ≡ some (node_name 3)
unfolding for_test node_names node_name
fourth_name = refl

for_test_names_example : ◌≡◌ {A = ℕ} 3 3
for_test_names_example = for_test_names 6 1 1 3 3 (node_name 3) fourth_name fourth_name

for_test_quorums_example :
    (length (for_test 6 1 1).nodes_ordered ≡ 6)
    × ((for_test 6 1 1).fast_quorum + 1 ≡ 6)
    × ((for_test 6 1 1).byz_quorum + 1 ≡ 6)
    × ((for_test 6 1 1).f_plus_1 ≡ 1 + 1)
    × (length (for_test 6 1 1).nodes_ordered + 1
        < (for_test 6 1 1).byz_quorum + (for_test 6 1 1).byz_quorum)
    × ((for_test 6 1 1).f_plus_1 ≤ (for_test 6 1 1).byz_quorum)
for_test_quorums_example = for_test_quorums 6 1 1 (omega arith) (omega arith) (omega arith)
