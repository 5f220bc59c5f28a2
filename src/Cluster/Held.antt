-- ===== src/Cluster/Held.antt =====
-- The sets of messages that a replica holds (raspen/crates/consensus/src/replica.rs).
use raspen.Prelude.{subst, inl, inr, Option, List, [], ◌∷◌, All, All-append, Bool-cases}
use raspen.Prelude.HashSet
use raspen.Types.{NodeId, Message, Message-discrete}
use raspen.Consensus.Agreement.Voters.{IsDistinct}
use raspen.Consensus.Agreement.Distinct.{insert-IsDistinct}
use raspen.Spec.Steps.{In}
use raspen.Cluster.Counts.{OneEach}

-- A set of messages that a replica holds: each was sent to it, and none stands there twice.
pub record IsHeld (messages held : List Message) : Type 0 where
  pub within : All (In messages) held
  pub distinct : IsDistinct held

pub All-In : {A : Type 0} (P : A → Type 0) (xs : List A) (a : A) → All P xs → In xs a → P a
All-In P [] a all here = absurd here
All-In P (x ∷ xs) a all (inl same) = subst P same all.0
All-In P (x ∷ xs) a all (inr later) = All-In P xs a all.1 later

pub OneEach-within :
    (f : Message → Option NodeId) (messages held : List Message)
    → OneEach f messages
    → All (In messages) held
    → OneEach f held
OneEach-within f messages held one within m m' a here here' =
    one m m' a (All-In (In messages) held m within here) (All-In (In messages) held m' within here')

pub insert-IsHeld :
    (messages held : List Message) (m : Message)
    → IsHeld messages held
    → In messages m
    → IsHeld messages (HashSet.insert Message-discrete m held)
unfolding HashSet.insert
insert-IsHeld messages held m h here = record {
  within = elim (Bool-cases (HashSet.contains Message-discrete m held)) [
    | inl old ↦ rw old h.within
    | inr new ↦ rw new (All-append (In messages) held (m ∷ []) h.within (here, tt))
  ];
  distinct = insert-IsDistinct m held h.distinct;
}
