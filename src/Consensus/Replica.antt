-- ===== src/Consensus/Replica.antt =====
-- raspen/crates/consensus/src/replica.rs: the replica's data, its construction and the leader test.
use raspen.Prelude.{
  ◌%◌, Bool, false, Option, none, some, List, [], Result, ok, ◌>>=◌, Outcome, done, length,
  get_elem?, bytes_eq,
}
use raspen.Types.{NodeId, Effect, Config, ReplicaState, speculative, zero_hash}

pub record Replica (S : Type 0) : Type 0 where
  pub state : ReplicaState S
  pub config : Config

-- What a handler comes to: the replica that it leaves and the effects that it returns, or a panic.
abbrev pub Handled : Type 0 → Type 0
Handled S = Outcome (Replica S × List Effect)

-- The name at the index, if there is one; `nodes[i] == node_id` in the source.
abbrev pub named : Option NodeId → NodeId → Bool
named none node_id = false
named (some name) node_id = bytes_eq name node_id

module _ {S : Type 0} where
  -- The replica that `Replica::new` makes over an opened store.
  abbrev pub initial : Config → NodeId → S → Replica S
  initial config node_id kv_store = record {
    state = record {
      node_id = node_id;
      phase = speculative;
      round = 0;
      view = 0;
      start_idx = 0;
      kv_size = 0;
      kv_store = kv_store;
      chkpt_idx = 0;
      chkpt_hash = zero_hash;
      eta_star = 0;
      in_repair = false;
      proposed_history_hash = 0;
      sync_msgs = [];
      ack_msgs = [];
      chkpt_msgs = [];
      timeout_msgs = [];
      log_msgs = [];
      repair_history_msgs = [];
      repair_prepare_msgs = [];
      repair_commit_msgs = [];
      repair_done_msgs = [];
    };
    config = config;
  }

  -- `opened` is the result of `KvStore::open(db_path)`.
  unfoldable pub new : Config → NodeId → Result S → Result (Replica S)
  new config node_id opened = do kv_store ← opened; ok (initial config node_id kv_store)

  -- With no nodes the list has nothing at any index, so the first test of the source is `named`'s.
  unfoldable pub is_leader : Replica S → Bool
  is_leader r =
      named (get_elem? r.config.nodes_ordered (r.state.view % length r.config.nodes_ordered))
        r.state.node_id

  -- `if let Some(x) = guard { effects.extend(handler(x)) }`
  abbrev pub fire {ℓ} : {A : Type ℓ} → Option A → Replica S → (A → Handled S) → Handled S
  fire none r handler = done (r, [])
  fire (some x) r handler = handler x
