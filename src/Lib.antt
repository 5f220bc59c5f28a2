-- ===== src/Lib.antt =====
-- Raspen, a replicated key-value store over the Aspen consensus protocol: a model of its Rust crates
-- and the theorems about it.
--
-- A client hands an operation to the sequencer, which numbers it and broadcasts SPECULATE. Each
-- replica appends it to its log (fast path), exchanges SYNCs and forms checkpoints (checkpoint), asks
-- for the state of others when it has diverged (alignment), and enters REPAIR when a checkpoint fails
-- (repair entry), where a leader proposes a history and two rounds of votes end the round (repair).
-- `Replica::process_message` runs every handler on each message, `Replica::handle_event` the three
-- timers, and `Node::start` drives the two from a channel and executes the effects.
--
-- Types            raspen/crates/types/src: message.rs, effect.rs, event.rs (Types/Messages), phase.rs
--                  (Types/Phases), config.rs (Types/Configs), state.rs (Types/States)
-- Storage          raspen/crates/storage/src/kv_store.rs: the in-memory backend (Storage/MemKvStore)
--                  over an ordered map (Storage/BTreeMap), and the RocksDB backend
--                  (Storage/RocksKvStore) over a database (Storage/Database) with big-endian keys
--                  (Storage/Keys); Storage/Contract is what the replica relies on of a store,
--                  Storage/Refinement is about the in-memory one as such, and Storage/Backends about
--                  the two side by side
-- Consensus        raspen/crates/consensus/src: replica.rs (Consensus/Replica, Consensus/Dispatch),
--                  fast_path.rs (Consensus/FastPath), checkpoint.rs (Consensus/Checkpoint),
--                  alignment.rs (Consensus/Alignment), repair_entry.rs (Consensus/RepairEntry),
--                  repair.rs (Consensus/Repair and its children), node.rs (Consensus/Node for the
--                  loop over a list of inputs, Consensus/Actor for the task with its channel),
--                  transport.rs and state_machine.rs (Consensus/Transport); the other modules of
--                  Consensus hold proofs
-- Spec             specs/aspen.qnt and specs/choreo/choreo.qnt, the formal specification in Quint: the
--                  state of a node (Spec/States), the senders that it counts (Spec/Senders), when a
--                  transition is enabled (Spec/Listeners) and what it does (Spec/Handlers), the
--                  transitions of a node (Spec/Steps) and the steps of all (Spec/System)
-- Cluster          several replicas of raspen/crates/consensus/src and the messages between them
-- Sequencer        raspen/crates/sequencer/src/eta.rs and proxy.rs; Sequencer/Concurrent has the two steps
--                  of a submission apart
-- Prelude          what the modules share: Boolean tests, lists, outcomes, HashSet
-- Tests            runs at concrete inputs, and the theorems at inputs that meet their hypotheses
--
-- A handler that takes `&mut Replica` is a function from the replica to the replica after it and the
-- effects; one that may panic (`expect`) returns an `Outcome`. Each function of the source is a
-- definition of the same name. The names `on_...` without `receive` are the `if let Some` blocks of
-- `process_message` and `handle_event`, in their order.
--
-- Numbers are natural numbers, and an addition of `u64`s is taken modulo 2^64 (`add64`), as in a
-- release build; theorems that need it ask for room below 2^64. `k as u8` is `k % 256`. Indexing
-- `nodes_ordered` by `view as usize` supposes a 64-bit target. A HashSet is a list without repetition,
-- whose order stands for the order of the iterator. The digits of a node's number are computed with
-- one unit of fuel for each unit of the number, which is more than it has digits.
--
-- SHA-256 and bincode are the parameters `Codec` and `Bincode`; a theorem that needs it supposes that
-- every entry is encoded (`Encodes`), or that what is encoded is decoded again (`BincodeLaws`).
-- RocksDB is the parameter `DbOps`, with `DbLaws` where a theorem needs it: a map from a column family
-- and a key to a value, which does not fail. Any other store stands behind the record `KvStoreOps`,
-- with the laws of `KvStoreLaws`. A clone of a store shares its data; the replica holds the only
-- handle, so that the model passes the data from call to call.
--
-- A node's task and its clients interleave: `Actor` has the steps, and `Reach` the states they lead to.
-- A channel keeps the order of what is sent, holds up to its capacity, and refuses what is sent to an
-- ended task, as tokio documents of `mpsc`.
--
-- A round of REPAIR is seen by one replica as a `Ballot` (Consensus/Progress), with the votes that
-- count. Consensus/Sequenced hands the sequencer's messages to a node in their order.
--
-- A step of the specification is one transition of `main_listener` by a node that sees all messages
-- that were sent to it; its log is a map from an index to an entry of three numbers, and a hash is a
-- number, which as the field of a message is the list of it alone. The messages of faulty nodes stand
-- there from the start, as in `init` of specs/aspen.qnt, and the events that happen to the nodes are
-- given. The replica is not a refinement of the specification: it takes another hash for the top of the
-- log, the first REPAIR-HISTORY that it finds in place of the largest, and another test for a checkpoint
-- that is impossible, and it counts CHECKPOINTs and REPAIR-DONEs in place of their senders.
--
-- A `Cluster` has a replica for each name and the messages sent to each; messages that no replica
-- sends, those of faulty nodes, stand there from the start, and the events that happen are given.
--
-- What may panic: an `expect` on an error of the store, and `collect()` of the entries of a rebuild,
-- whose number a peer chooses. A `Vec` has at most 2^63 - 1 bytes, an element `(u64, KvEntry)` has 72, so
-- that `vec_capacity` elements fit. That the memory suffices for what fits is supposed throughout.
--
-- Not modelled: how a send that waits for room in a channel is woken, the broadcast channel behind the
-- sequencer's subscriptions (tokio's), what a transport does with a message (the crate has no
-- implementation of its trait outside tests), the scenarios of specs/aspen.qnt for the simulator and
-- its invariants that speak of faulty nodes, and `Debug` and `Default` implementations.
pub mod Prelude
pub mod Types
pub mod Storage
pub mod Consensus
pub mod Sequencer
pub mod Spec
pub mod Cluster
pub mod Tests
