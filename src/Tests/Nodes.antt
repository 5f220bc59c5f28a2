-- ===== src/Tests/Nodes.antt =====
-- A node that runs a replica, at concrete inputs.
use raspen.Prelude.{
  ℕ, true, ◌≤◌, ◌≡◌, refl, some, List, [], ◌∷◌, ◌++◌, count_if, length, arith, All, ◌+◌,
}
use native.Mathlib.Decide.{ℕ_discrete}
use raspen.Prelude.{bytes_eq, filter_map}
use raspen.Prelude.HashSet
use raspen.Types.{Message, Effect, broadcast, send, log_msg}
use raspen.Storage.MemKvStore.{MemKvStore, mem_ops}
use raspen.Storage.Refinement.{mem_laws}
use raspen.Consensus.Replica.{Replica, is_leader}
use raspen.Consensus.Repair.{NodeId-discrete, can_broadcast_history, log_senders}
use raspen.Consensus.Node.{ReplicaInput, message, run_node}
use raspen.Consensus.Transport.{Transport, replica_machine, execute}
use raspen.Consensus.Actor.{Actor, running, start, submit}
use raspen.Consensus.Delivery.{Reach, started, submitted, Delivered, Reach-Delivered}
use raspen.Consensus.Runs.{InputFits}
use raspen.Consensus.Alignment.{vec_capacity}
use raspen.Consensus.NodeRuns.{turns, node_drains}
use raspen.Consensus.NoPanic.Sizes.{IsDense}
use raspen.Consensus.Proposal.{has_logged, can_broadcast_history_lem}
use raspen.Tests.Fixtures.{toy_codec, toy_encodes, name, config, vote, preparing, collecting}

-- A transport that records what it is given.
instance abbrev recorder : Transport (List Effect)
recorder = record {
  broadcast = λ sent msg. sent ++ broadcast msg ∷ [];
  send = λ sent to msg. sent ++ send to msg ∷ [];
}

abbrev waiting : Actor (Replica MemKvStore) (List Effect)
waiting = record (start preparing [] 1) { queue = message (vote 5) ∷ [] }

one_vote : List ReplicaInput
one_vote = message (vote 5) ∷ []

waiting-Reach : Reach preparing [] 1 one_vote waiting
unfolding one_vote submit
waiting-Reach = submitted (message (vote 5)) started refl

Reach-Delivered_example : Delivered preparing [] 1 one_vote waiting
Reach-Delivered_example = Reach-Delivered preparing [] 1 one_vote waiting waiting-Reach

preparing-IsDense : IsDense (mem_laws toy_encodes) preparing
preparing-IsDense = record {
  filled = record { entry = λ k h. elim h [ ] };
  bounded = record { proposal = omega arith; histories = tt };
}

one_vote-Fits : All InputFits one_vote
unfolding one_vote
one_vote-Fits = (tt, tt)

one_vote-IsFew : length preparing.state.log_msgs + length one_vote ≤ vec_capacity
unfolding one_vote
one_vote-IsFew = omega arith

node_drains_example :
    (a' : Actor (Replica MemKvStore) (List Effect)) × (later : Replica MemKvStore) × (turns 1
        waiting
      ≡ some a')
    × (a'.queue ≡ [])
    × (a'.task ≡ running later)
    × (a'.transport ≡ execute [] (run_node one_vote preparing).0)
node_drains_example =
    node_drains (mem_laws toy_encodes) 1 preparing [] 1 one_vote waiting preparing one_vote-Fits
      preparing-IsDense refl one_vote-IsFew waiting-Reach refl refl

log_of : ℕ → Message
log_of digit = log_msg (name digit) 0 0 []

-- A leader that holds the LOGs of five nodes.
led : Replica MemKvStore
unfolding log_of
led = record collecting {
  state = record collecting.state {
    log_msgs = log_of b'0' ∷ log_of b'1' ∷ log_of b'2' ∷ log_of b'3' ∷ log_of b'4' ∷ [];
  };
}

can_broadcast_history_lem_example :
    (◌≡◌ {A = ℕ} 5 (
      count_if (has_logged led.state.view led.state.round led.state.log_msgs) config.nodes_ordered))
    × (led.config.byz_quorum ≤ 5)
    × (5 ≤ length config.nodes_ordered)
    × (is_leader led ≡ true)
unfolding led can_broadcast_history log_senders HashSet.contains HashSet.collect HashSet.insert
    NodeId-discrete is_leader ℕ_discrete bytes_eq filter_map
can_broadcast_history_lem_example =
    can_broadcast_history_lem led config.nodes_ordered 5
      (refl, (refl, (refl, (refl, (refl, (refl, tt)))))) (refl, (refl, (refl, (refl, (refl, tt)))))
      refl
