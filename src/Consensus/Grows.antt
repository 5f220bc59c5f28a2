-- ===== src/Consensus/Grows.antt =====
-- How the sets of received messages grow (`ReplicaState` of raspen/crates/types/src/state.rs).
use raspen.Prelude.{
  ℕ, ◌≤◌, ◌≡◌, refl, Bool, false, Option, none, some, List, [], ◌∷◌, arith, count_if,
  count_if-append, find_map, ◌==◌, ◌&&◌,
}
use raspen.Prelude.HashSet
use raspen.Types.{Message, Message-discrete, repair_history}
use raspen.Consensus.Replica.{Replica}
use raspen.Consensus.Repair.{history_of}

-- Whatever is counted, there is no less of it.
pub Grows : List Message → List Message → Type 0
Grows xs ys = (p : Message → Bool) → count_if p xs ≤ count_if p ys

pub Grows-refl : (xs : List Message) → Grows xs xs
unfolding Grows
Grows-refl xs p = omega arith

pub Grows-trans : (xs ys zs : List Message) → Grows xs ys → Grows ys zs → Grows xs zs
unfolding Grows
Grows-trans xs ys zs g h p = omega (arith, g p, h p)

pub Grows-insert :
    (m : Message) (xs : List Message) → Grows xs (HashSet.insert Message-discrete m xs)
unfolding Grows HashSet.insert
Grows-insert m xs p = ground (arith, count_if-append p xs (m ∷ []))

pub count-Grows :
    (p : Message → Bool) (n : ℕ) (xs ys : List Message)
    → Grows xs ys
    → n ≤ count_if p xs
    → n ≤ count_if p ys
unfolding Grows
count-Grows p n xs ys g h = omega (arith, g p)

-- A REPAIR-HISTORY of this view and round with this hash.
abbrev pub history_is : (view round hist : ℕ) → Message → Bool
history_is view round hist (repair_history _ v r h) = v == view && r == round && h == hist
history_is _ _ _ _ = false

-- What `find_map` finds is in the set.
pub count_if-history :
    (view round hist : ℕ) (xs : List Message)
    → find_map (history_of view round) xs ≡ some hist
    → 1 ≤ count_if (history_is view round hist) xs
unfolding find_map count_if
count_if-history view round hist [] h = cc
count_if-history view round hist (repair_history f v r k ∷ xs) h =
    ground (arith, count_if-history view round hist xs)
count_if-history view round hist (_ ∷ xs) h = ground (arith, count_if-history view round hist xs)

-- What a search for a REPAIR-HISTORY shows.
abbrev pub Found : (view round : ℕ) → List Message → Option ℕ → Type 0
Found view round xs none = Unit {0}
Found view round xs (some hist) = 1 ≤ count_if (history_is view round hist) xs

pub find_map-Found :
    (view round : ℕ) (xs : List Message) → Found view round xs (find_map (history_of view round) xs)
find_map-Found view round xs = found (find_map (history_of view round) xs) refl
  where
    found : (o : Option ℕ) → find_map (history_of view round) xs ≡ o → Found view round xs o
    found none e = tt
    found (some hist) e = count_if-history view round hist xs e

module _ {S : Type 0} where
  pub record AllGrow (r r' : Replica S) : Type 0 where
    pub syncs : Grows r.state.sync_msgs r'.state.sync_msgs
    pub checkpoints : Grows r.state.chkpt_msgs r'.state.chkpt_msgs
    pub timeouts : Grows r.state.timeout_msgs r'.state.timeout_msgs
    pub logs : Grows r.state.log_msgs r'.state.log_msgs
    pub histories : Grows r.state.repair_history_msgs r'.state.repair_history_msgs
    pub prepares : Grows r.state.repair_prepare_msgs r'.state.repair_prepare_msgs
    pub commits : Grows r.state.repair_commit_msgs r'.state.repair_commit_msgs
    pub dones : Grows r.state.repair_done_msgs r'.state.repair_done_msgs

  pub AllGrow-refl : (r : Replica S) → AllGrow r r
  AllGrow-refl r = record {
    syncs = Grows-refl _;
    checkpoints = Grows-refl _;
    timeouts = Grows-refl _;
    logs = Grows-refl _;
    histories = Grows-refl _;
    prepares = Grows-refl _;
    commits = Grows-refl _;
    dones = Grows-refl _;
  }

  pub AllGrow-trans : (a b c : Replica S) → AllGrow a b → AllGrow b c → AllGrow a c
  AllGrow-trans a b c g h = record {
    syncs = Grows-trans _ _ _ g.syncs h.syncs;
    checkpoints = Grows-trans _ _ _ g.checkpoints h.checkpoints;
    timeouts = Grows-trans _ _ _ g.timeouts h.timeouts;
    logs = Grows-trans _ _ _ g.logs h.logs;
    histories = Grows-trans _ _ _ g.histories h.histories;
    prepares = Grows-trans _ _ _ g.prepares h.prepares;
    commits = Grows-trans _ _ _ g.commits h.commits;
    dones = Grows-trans _ _ _ g.dones h.dones;
  }
