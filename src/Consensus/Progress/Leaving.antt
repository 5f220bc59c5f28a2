-- ===== src/Consensus/Progress/Leaving.antt =====
-- The inputs of a node (raspen/crates/consensus/src/node.rs) with which it leaves a round of REPAIR.
use raspen.Prelude.{ℕ, ◌≡◌, refl, ap, List, [], ◌∷◌, ◌++◌, done}
use raspen.Types.{Effect, KvStoreOps}
use raspen.Consensus.Replica.{Replica}
use raspen.Consensus.Node.{ReplicaInput, message, event, handle_input, run_node}
use raspen.Consensus.Progress.Ballots.{Ballot, heard, Ended}
use raspen.Consensus.Progress.Histories.{Proposes}

-- The ballot after one more input, and after a list of them.
abbrev pub heard_input : Ballot → ReplicaInput → Ballot
heard_input b (message msg) = heard b msg
heard_input b (event ev) = b

abbrev pub heard_all : Ballot → List ReplicaInput → Ballot
heard_all b [] = b
heard_all b (input ∷ inputs) = heard_all (heard_input b input) inputs

-- A received REPAIR-HISTORY of the view and round has the proposal.
abbrev pub InputProposes : (view round history_hash : ℕ) → ReplicaInput → Type 0
InputProposes view round history_hash (message msg) = Proposes view round history_hash msg
InputProposes view round history_hash (event ev) = Unit

module _ {S : Type 0} where
  -- The ballot of a replica's round.
  abbrev pub ballot : Replica S → Ballot
  ballot r = record {
    config = r.config;
    view = r.state.view;
    round = r.state.round;
    history_hash = r.state.proposed_history_hash;
    prepares = r.state.repair_prepare_msgs;
    commits = r.state.repair_commit_msgs;
  }

  -- After some of the inputs, the node has left the round.
  pub record Leaves ⦃ops : KvStoreOps S⦄ (round : ℕ) (inputs : List ReplicaInput) (r : Replica S)
      : Type 0 where
    pub before : List ReplicaInput
    pub after : List ReplicaInput
    pub middle : Replica S
    pub in_order : inputs ≡ before ++ after
    pub runs : (run_node before r).1 ≡ done middle
    pub ended : Ended round middle

  module _ ⦃ops : KvStoreOps S⦄ where
    pub Leaves-later :
        (round : ℕ) (input : ReplicaInput) (inputs : List ReplicaInput) (r a : Replica S)
        (effects : List Effect)
        → handle_input r input ≡ done (a, effects)
        → Leaves round inputs a
        → Leaves round (input ∷ inputs) r
    unfolding run_node
    Leaves-later round input inputs r a effects is l = record {
      before = input ∷ l.before;
      after = l.after;
      middle = l.middle;
      in_order = ap (λ is'. input ∷ is') l.in_order;
      runs = rw is l.runs;
      ended = l.ended;
    }

    pub Leaves-now :
        (round : ℕ) (input : ReplicaInput) (inputs : List ReplicaInput) (r a : Replica S)
        (effects : List Effect)
        → handle_input r input ≡ done (a, effects)
        → Ended round a
        → Leaves round (input ∷ inputs) r
    unfolding run_node
    Leaves-now round input inputs r a effects is e = record {
      before = input ∷ [];
      after = inputs;
      middle = a;
      in_order = refl;
      runs = rw is refl;
      ended = e;
    }
