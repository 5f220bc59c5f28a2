-- ===== src/Cluster/Counts.antt =====
-- The messages that the code counts (raspen/crates/consensus/src), and their senders.
use raspen.Prelude.{
  suc, ◌≤◌, ◌≡◌, refl, sym, ap, ◌∙◌, Bool, true, false, inl, inr, Option, none, some, List, [], ◌∷◌,
  length, length-snoc, count_if, filter_map, arith, Bool-cases, Option-cases,
}
use raspen.Prelude.HashSet
use raspen.Prelude.HashSet.Size.{contains-collect, length-insert}
use raspen.Types.{NodeId, Message, Message-discrete}
use raspen.Consensus.Repair.{NodeId-discrete}
use raspen.Consensus.Agreement.Voters.{IsDistinct}
use raspen.Spec.Senders.{senders}
use raspen.Spec.Steps.{In}

contains-cons :
    (x m : Message) (ms : List Message)
    → HashSet.contains Message-discrete x ms ≡ true
    → HashSet.contains Message-discrete x (m ∷ ms) ≡ true
unfolding HashSet.contains
contains-cons x m ms h = ground arith

contains-cons_self :
    (m : Message) (ms : List Message) → HashSet.contains Message-discrete m (m ∷ ms) ≡ true
unfolding HashSet.contains
contains-cons_self m ms = ground arith

length-insert_new :
    (a : NodeId) (xs : List NodeId)
    → HashSet.contains NodeId-discrete a xs ≡ false
    → length (HashSet.insert NodeId-discrete a xs) ≡ suc (length xs)
unfolding HashSet.insert
length-insert_new a xs new = ground (arith, length-snoc xs a)

-- The senders of one message more.
pub senders-cons_none :
    (f : Message → Option NodeId) (m : Message) (ms : List Message)
    → f m ≡ none
    → senders f (m ∷ ms) ≡ senders f ms
unfolding filter_map
senders-cons_none f m ms idle = rw (idle, filter_map)

senders-cons_some :
    (f : Message → Option NodeId) (m : Message) (ms : List Message) (a : NodeId)
    → f m ≡ some a
    → senders f (m ∷ ms) ≡ HashSet.insert NodeId-discrete a (senders f ms)
unfolding filter_map HashSet.collect
senders-cons_some f m ms a is = rw (is, filter_map)

-- A sender in the list sent one of the messages.
pub contains-filter_map :
    (f : Message → Option NodeId) (a : NodeId) (ms : List Message)
    → HashSet.contains NodeId-discrete a (filter_map f ms) ≡ true
    → (m : Message) × (In ms m) × (HashSet.contains Message-discrete m ms ≡ true) × (f m ≡ some a)
unfolding filter_map HashSet.contains
contains-filter_map f a [] h = cc
contains-filter_map f a (m ∷ ms) h = elim (Option-cases (f m)) [
  | inl idle ↦
      let (x, here, held, is) = contains-filter_map f a ms (rw (idle, filter_map) at h) in
      (x, inr here, contains-cons x m ms held, is)
  | inr (b, sent) ↦ elim (NodeId-discrete a b) [
    | yes same ↦ (m, inl refl, contains-cons_self m ms, sent ∙ ap some (sym same))
    | no other ↦
        let rest : HashSet.contains NodeId-discrete a (b ∷ filter_map f ms) ≡ true =
          rw (sent, filter_map) at h in
        let (x, here, held, is) = contains-filter_map f a ms (ground arith) in
        (x, inr here, contains-cons x m ms held, is)
  ]
]

-- No two of the messages have one sender.
abbrev pub OneEach : (Message → Option NodeId) → List Message → Type 0
OneEach f messages =
    (m m' : Message) (a : NodeId)
    → In messages m
    → In messages m'
    → f m ≡ some a
    → f m' ≡ some a
    → m ≡ m'

-- If each sender sent one of the messages that are counted, there are as many senders.
pub count_if-le-senders :
    (f : Message → Option NodeId) (p : Message → Bool) (ms : List Message)
    → ((m : Message) → p m ≡ true → (a : NodeId) × (f m ≡ some a))
    → OneEach f ms
    → IsDistinct ms
    → count_if p ms ≤ length (senders f ms)
unfolding count_if filter_map HashSet.collect HashSet.insert
count_if-le-senders f p [] sent one d = omega arith
count_if-le-senders f p (m ∷ ms) sent one d =
    let ih = count_if-le-senders f p ms sent (λ x y a hx hy. one x y a (inr hx) (inr hy)) d.1 in
    elim (Bool-cases (p m)) [
      | inl counts ↦
          let (a, is) = sent m counts in
          let new : HashSet.contains NodeId-discrete a (senders f ms) ≡ false =
            contains-collect NodeId-discrete a (filter_map f ms)
            ∙ elim (Bool-cases (HashSet.contains NodeId-discrete a (filter_map f ms))) [
              | inl known ↦
                  let (x, here, held, by) = contains-filter_map f a ms known in
                  let same : m ≡ x = one m x a (inl refl) (inr here) is by in
                  let twice : HashSet.contains Message-discrete m ms ≡ true = rw same held in cc
              | inr fresh ↦ fresh
            ] in
          rw (senders-cons_some f m ms a is)
            (ground (arith, ih, length-insert_new a (senders f ms) new))
      | inr skips ↦ elim (Option-cases (f m)) [
        | inl idle ↦ rw (senders-cons_none f m ms idle) (ground (arith, ih))
        | inr (a, is) ↦
            rw (senders-cons_some f m ms a is)
              (ground (arith, ih, length-insert NodeId-discrete a (senders f ms)))
      ]
    ]
