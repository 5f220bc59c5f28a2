-- ===== src/Tests/Fixtures.antt =====
-- The data of the tests: a configuration like that of raspen/crates/consensus/tests/helpers.rs, stores,
-- and replicas in the phases of the protocol.
use raspen.Prelude.{ℕ, ◌+◌, ◌%◌, refl, true, ok, List, [], ◌∷◌, ◌++◌, replicate}
use raspen.Types.{
  NodeId, zero_hash, Message, speculate, sync, log_msg, repair_prepare, repair_commit, Effect,
  broadcast, collecting_logs, prepare_phase, commit_phase, Config, KvEntry,
}
use raspen.Storage.MemKvStore
use raspen.Storage.MemKvStore.{MemKvStore, Codec, mem_ops}
use raspen.Storage.Refinement.{Encodes}
use raspen.Consensus.Replica.{Replica, initial}
use raspen.Consensus.Node.{ReplicaInput, message}

-- An encoding and a digest that stand for bincode and SHA-256.
abbrev sum : List ℕ → ℕ
sum [] = 0
sum (x ∷ xs) = x + sum xs

instance abbrev pub toy_codec : Codec
toy_codec = record {
  encode = λ e. ok (e.op_hash ∷ (e.result ++ e.prev_hash));
  digest = λ bytes. replicate 32 (sum bytes % 256);
}

abbrev pub toy_encodes : Encodes toy_codec
toy_encodes e = (e.op_hash ∷ (e.result ++ e.prev_hash), refl)

abbrev pub entry : ℕ → KvEntry
entry k = record { op_hash = k; result = []; prev_hash = replicate 32 7 }

abbrev pub one_entry : MemKvStore
one_entry = record MemKvStore.new { entries = (0, entry 0) ∷ [] }

abbrev pub two_entries : MemKvStore
two_entries = record MemKvStore.new { entries = (0, entry 0) ∷ (4, entry 4) ∷ [] }

abbrev pub name : ℕ → NodeId
name digit = b'r' ∷ digit ∷ []

abbrev pub config : Config
config = record {
  n = 6;
  f = 1;
  p = 1;
  fast_quorum = 5;
  byz_quorum = 5;
  f_plus_1 = 2;
  nodes_ordered = name b'0' ∷ name b'1' ∷ name b'2' ∷ name b'3' ∷ name b'4' ∷ name b'5' ∷ [];
}

abbrev pub start : Replica MemKvStore
start = initial config (name b'0') MemKvStore.new

abbrev pub request : Message
request = speculate (115 ∷ []) 0 zero_hash 0

-- A replica in PreparePhase that has proposed 5 and has four of the five votes it needs.
abbrev pub vote : ℕ → Message
vote k = repair_prepare (k ∷ []) 0 0 5

abbrev pub preparing : Replica MemKvStore
preparing = record start {
  state = record start.state {
    phase = prepare_phase;
    in_repair = true;
    proposed_history_hash = 5;
    repair_prepare_msgs = vote 1 ∷ vote 2 ∷ vote 3 ∷ vote 4 ∷ [];
  };
}

-- What the fifth vote makes of it.
abbrev pub committed : Replica MemKvStore
committed = record preparing {
  state = record preparing.state {
    phase = commit_phase;
    repair_prepare_msgs = vote 1 ∷ vote 2 ∷ vote 3 ∷ vote 4 ∷ vote 5 ∷ [];
  };
}

abbrev pub late_votes : List ReplicaInput
late_votes = message (vote 5) ∷ message (vote 6) ∷ []

abbrev pub commit_vote : Effect
commit_vote = broadcast (repair_commit (name b'0') 0 0 5)

-- A replica that waits for LOGs, and what its timer makes of it.
abbrev pub collecting : Replica MemKvStore
collecting = record start {
  state = record start.state { phase = collecting_logs; in_repair = true };
}

abbrev pub next_collecting : Replica MemKvStore
next_collecting = record collecting { state = record collecting.state { view = 1 } }

abbrev pub next_log : Effect
next_log = broadcast (log_msg (name b'0') 1 0 zero_hash)

-- A replica with one entry, which holds four SYNCs of that entry and one of another.
abbrev pub synced : Replica MemKvStore
synced = record start {
  state = record start.state {
    kv_size = 1;
    kv_store = one_entry;
    sync_msgs =
        sync (name b'1') 0 0 (replicate 32 7) 0
        ∷ sync (name b'2') 0 0 (replicate 32 7) 0
        ∷ sync (name b'3') 0 0 (replicate 32 7) 0
        ∷ sync (name b'4') 0 0 (replicate 32 7) 0
        ∷ sync (name b'5') 0 0 zero_hash 0
        ∷ [];
  };
}

abbrev pub last_sync : Message
last_sync = sync (name b'0') 0 0 (replicate 32 7) 0
