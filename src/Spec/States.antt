-- ===== src/Spec/States.antt =====
-- specs/aspen.qnt and specs/choreo/choreo.qnt: the types. Messages, events, phases and the constants
-- are those of raspen/crates/types/src, which have the same fields; SPECULATE is none of the
-- specification's messages.
use raspen.Prelude.{ℕ, ◌+◌, ◌-◌, Bool, false, List, [], ◌∷◌, ltb, ◌==◌, if◌then◌else◌}
use raspen.Types.{Hash, NodeId, Message, Effect, Event, Phase, speculative}

-- `KVEntry`
pub record KvEntry : Type 0 where
  pub op_hash : ℕ
  pub result : ℕ
  pub prev_hash : ℕ

-- `KVStore`, a map from an index to an entry. The specification reads no key that it has not set;
-- the function gives `EMPTY_KV_ENTRY` there.
abbrev pub KvStore : Type 0
KvStore = ℕ → KvEntry

-- `EMPTY_KV_ENTRY`
abbrev pub empty_kv_entry : KvEntry
empty_kv_entry = record { op_hash = 0; result = 0; prev_hash = 0 }

-- `Map()`
abbrev pub empty_store : KvStore
empty_store k = empty_kv_entry

-- A hash of the specification is a number; as the field of a message it is the list of it alone.
abbrev pub number : ℕ → Hash
number h = h ∷ []

unfoldable pub log_hash_at : KvStore → ℕ → ℕ
log_hash_at store k = (store k).op_hash + (store k).prev_hash

unfoldable pub log_top_hash : KvStore → ℕ → ℕ
unfolding log_hash_at
log_top_hash store kv_size = if ltb 0 kv_size then log_hash_at store (kv_size - 1) else 0

-- `store.put(k, entry)`
unfoldable pub put : ℕ → KvEntry → KvStore → KvStore
put k entry store j = if j == k then entry else store j

-- `0.to(count - 1).mapBy(k => { op_hash: k, result: k, prev_hash: k })`
unfoldable pub rebuilt : ℕ → KvStore
rebuilt count k =
    if ltb k count then record { op_hash = k; result = k; prev_hash = k } else empty_kv_entry

-- `LocalState[Node, StateFields]`
pub record LocalState : Type 0 where
  pub process_id : NodeId
  pub phase : Phase
  pub round : ℕ
  pub view : ℕ
  pub start_idx : ℕ
  pub kv_size : ℕ
  pub kv_store : KvStore
  pub chkpt_idx : ℕ
  pub chkpt_hash : Hash
  pub eta_star : ℕ
  pub in_repair : Bool
  pub proposed_history_hash : ℕ

-- `LocalContext`
pub record LocalContext : Type 0 where
  pub state : LocalState
  pub messages : List Message
  pub events : List Event

-- `Transition`
pub record Transition : Type 0 where
  pub post_state : LocalState
  pub effects : List Effect

-- The state that `initialize` gives a node, over an empty log.
abbrev pub initialize : NodeId → LocalState
initialize node = record {
  process_id = node;
  phase = speculative;
  round = 0;
  view = 0;
  start_idx = 0;
  kv_size = 0;
  kv_store = empty_store;
  chkpt_idx = 0;
  chkpt_hash = number 0;
  eta_star = 0;
  in_repair = false;
  proposed_history_hash = 0;
}
