-- ===== src/Consensus/Progress/Histories.antt =====
-- REPAIR-HISTORYs of one proposal (raspen/crates/consensus/src/repair.rs).
use raspen.Prelude.{
  ℕ, ◌≡◌, inl, inr, List, [], ◌∷◌, Option-cases, some, All, arith, Bool-cases, sym, ◌∙◌, All-append,
  find_map,
}
use raspen.Prelude.HashSet
use raspen.Types.{Message, Message-discrete}
use raspen.Consensus.Repair.{history_of}

-- A REPAIR-HISTORY of the view and round has the proposal.
abbrev pub Proposes : (view round history_hash : ℕ) → Message → Type 0
Proposes view round history_hash msg =
    (h : ℕ) → history_of view round msg ≡ some h → h ≡ history_hash

-- All of them have it.
pub record Agreed (view round history_hash : ℕ) (msgs : List Message) : Type 0 where
  pub all : All (Proposes view round history_hash) msgs

pub find_map-Proposes :
    (view round hist : ℕ) (msgs : List Message) (h : ℕ)
    → All (Proposes view round hist) msgs
    → find_map (history_of view round) msgs ≡ some h
    → h ≡ hist
unfolding find_map
find_map-Proposes view round hist [] h all is = cc
find_map-Proposes view round hist (msg ∷ msgs) h all is =
    elim (Option-cases (history_of view round msg)) [
      | inl idle ↦ find_map-Proposes view round hist msgs h all.1 (rw (idle, find_map) at is)
      | inr (h', found) ↦
          let here : some h' ≡ some h = rw (found, find_map) at is in
          let same : h' ≡ h = ground arith in sym same ∙ all.0 h' found
    ]

pub Agreed-insert :
    (view round hist : ℕ) (msg : Message) (msgs : List Message)
    → Agreed view round hist msgs
    → Proposes view round hist msg
    → Agreed view round hist (HashSet.insert Message-discrete msg msgs)
unfolding HashSet.insert
Agreed-insert view round hist msg msgs agreed here =
    elim (Bool-cases (HashSet.contains Message-discrete msg msgs)) [
      | inl held ↦ rw held agreed
      | inr fresh ↦ rw fresh (record {
        all = All-append (Proposes view round hist) msgs (msg ∷ []) agreed.all (here, tt);
      })
    ]
