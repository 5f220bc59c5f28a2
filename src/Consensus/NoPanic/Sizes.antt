-- ===== src/Consensus/NoPanic/Sizes.antt =====
-- The sizes that a peer chooses, and that `collect` takes for the entries of a rebuild
-- (raspen/crates/consensus/src/alignment.rs and repair.rs).
use raspen.Prelude.{
  ℕ, suc, ◌+◌, ◌≤◌, ◌≡◌, ap, ◌∙◌, inl, inr, Option, some, List, [], ◌∷◌, length, filter_map,
  find_map, arith, All, Option-cases,
}
use raspen.Prelude.HashSet
use raspen.Prelude.HashSet.Size.{length-insert, insert-insert, length-collect-le, All-insert}
use raspen.Types.{Message, Message-discrete, state_reply, repair_history, KvStoreOps}
use raspen.Storage.Contract.{KvStoreLaws}
use raspen.Consensus.Replica.{Replica}
use raspen.Consensus.Alignment.{vec_capacity}
use raspen.Consensus.Repair.{
  NodeId-discrete, history_of, log_sender, log_senders, can_broadcast_history, can_repair_prepare,
  store_log_msg, store_repair_history,
}
use raspen.Consensus.Log.{IsFilled}

-- The entries that the message asks for fit in a `Vec`: those up to the index of a STATE-REPLY, or
-- those of the history of a REPAIR-HISTORY.
abbrev pub Fits : Message → Type 0
Fits (state_reply _ chkpt_idx _) = chkpt_idx + 1 ≤ vec_capacity
Fits (repair_history _ _ _ history_hash) = history_hash ≤ vec_capacity
Fits _ = Unit

history-Fits :
    (view round : ℕ) (m : Message) (hist : ℕ)
    → Fits m
    → history_of view round m ≡ some hist
    → hist ≤ vec_capacity
history-Fits view round (repair_history _ v r h) hist fits is = ground arith
history-Fits view round _ hist fits is = cc

found_history-Fits :
    (view round : ℕ) (ms : List Message) (hist : ℕ)
    → All Fits ms
    → find_map (history_of view round) ms ≡ some hist
    → hist ≤ vec_capacity
unfolding find_map
found_history-Fits view round [] hist fits is = cc
found_history-Fits view round (m ∷ ms) hist fits is =
    elim (Option-cases (history_of view round m)) [
      | inl idle ↦ found_history-Fits view round ms hist fits.1 (rw (idle, find_map) at is)
      | inr (b, found) ↦
          let same : some b ≡ some hist = rw (found, find_map) at is in
          history-Fits view round m hist fits.0 (found ∙ same)
    ]

length-filter_map :
    {A B : Type 0} (f : A → Option B) (xs : List A) → length (filter_map f xs) ≤ length xs
unfolding filter_map
length-filter_map f [] = omega arith
length-filter_map f (x ∷ xs) = ground (arith, length-filter_map f xs)

module _ {S : Type 0} where
  -- The sizes that the replica may take for a rebuild fit in a `Vec`: its proposal, and those of the
  -- REPAIR-HISTORYs that it holds.
  pub record IsBounded (r : Replica S) : Type 0 where
    pub proposal : r.state.proposed_history_hash ≤ vec_capacity
    pub histories : All Fits r.state.repair_history_msgs

  -- The LOGs that the replica holds, with the message if it is one, and `spare` more fit in a `Vec`.
  abbrev pub HasRoom : Message → ℕ → Replica S → Type 0
  HasRoom msg spare r =
      length (HashSet.insert Message-discrete msg r.state.log_msgs) + spare ≤ vec_capacity

  pub room_before :
      (msg : Message) (spare : ℕ) (r : Replica S)
      → length r.state.log_msgs + suc spare ≤ vec_capacity
      → HasRoom msg spare r
  room_before msg spare r h =
      let grows = length-insert Message-discrete msg r.state.log_msgs in omega (arith, grows.1)

  pub room_after :
      (msg : Message) (spare : ℕ) (r : Replica S)
      → HasRoom msg spare r
      → length r.state.log_msgs + spare ≤ vec_capacity
  room_after msg spare r h =
      let grows = length-insert Message-discrete msg r.state.log_msgs in omega (arith, grows.0)

  pub store_log_msg-HasRoom :
      (msg : Message) (spare : ℕ) (r : Replica S)
      → HasRoom msg spare r
      → HasRoom msg spare (store_log_msg r msg)
  unfolding store_log_msg
  store_log_msg-HasRoom msg spare r h = ground (
    arith,
    ap (λ (l : List Message). length l) (insert-insert Message-discrete msg r.state.log_msgs),
  )

  -- A leader proposes no more than the number of LOGs that it holds.
  pub proposal_fits :
      (msg : Message) (spare : ℕ) (r : Replica S) (hist : ℕ)
      → HasRoom msg spare r
      → can_broadcast_history r ≡ some hist
      → hist ≤ vec_capacity
  unfolding can_broadcast_history log_senders
  proposal_fits msg spare r hist room is =
      let held = room_after msg spare r room in
      let senders = filter_map (log_sender r.state.view r.state.round) r.state.log_msgs in
      ground (
        arith,
        length-collect-le NodeId-discrete senders,
        length-filter_map (log_sender r.state.view r.state.round) r.state.log_msgs,
      )

  pub prepared_fits :
      (r : Replica S) (hist : ℕ)
      → IsBounded r
      → can_repair_prepare r ≡ some hist
      → hist ≤ vec_capacity
  unfolding can_repair_prepare
  prepared_fits r hist b is = ground (
    arith,
    found_history-Fits r.state.view r.state.round r.state.repair_history_msgs hist b.histories,
  )

  pub store_repair_history-IsBounded :
      (msg : Message) (r : Replica S)
      → Fits msg
      → IsBounded r
      → IsBounded (store_repair_history r msg)
  unfolding store_repair_history
  store_repair_history-IsBounded msg r fits b = ground (
    arith,
    b.proposal,
    All-insert Message-discrete Fits msg r.state.repair_history_msgs b.histories fits,
  )

module _ {S : Type 0} ⦃ops : KvStoreOps S⦄ (laws : KvStoreLaws S) where
  -- The log has an entry at every index below `kv_size`, and the sizes that the replica may take for
  -- a rebuild fit in a `Vec`.
  pub record IsDense (r : Replica S) : Type 0 where
    pub filled : IsFilled laws r.state.kv_store r.state.kv_size
    pub bounded : IsBounded r
