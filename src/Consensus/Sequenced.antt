-- ===== src/Consensus/Sequenced.antt =====
-- What the sequencer's messages (raspen/crates/sequencer/src/proxy.rs) make of the log of a node
-- (raspen/crates/consensus/src/node.rs) that receives them in their order.
pub mod Quiet
use raspen.Prelude.{
  ℕ, zero, suc, ◌+◌, ◌<◌, ◌≤◌, ◌≡◌, refl, sym, ap, ◌∙◌, subst, true, false, ◌⊎◌, inl, inr, List, [],
  ◌∷◌, length, done, panic, Outcome, Returns, Returns-done, arith, All, some, u64_mod, ◌==◌,
  if◌then◌else◌,
}
use raspen.Types.{Hash, Message, Effect, KvStoreOps}
use raspen.Storage.Contract.{KvStoreLaws}
use raspen.Sequencer
use raspen.Sequencer.{submit_all, messages_from, submit_all-consecutive}
use raspen.Consensus.Replica.{Replica}
use raspen.Consensus.FastPath.{is_speculate}
use raspen.Consensus.Dispatch.{process_message}
use raspen.Consensus.Node.{ReplicaInput, message, handle_input, run_node}
use raspen.Consensus.Speculation.{chain_hash, next_entry, entry_after}
use raspen.Consensus.Sequenced.Quiet.{IsQuiet, Grown, process_message-IsQuiet}

-- A receiver of the broadcast channel hands each message to `submit_message`.
abbrev pub delivered : List Message → List ReplicaInput
delivered [] = []
delivered (msg ∷ msgs) = message msg ∷ delivered msgs

abbrev pub AreSpeculates : List Message → Type 0
AreSpeculates = All (λ msg. is_speculate msg ≡ true)

messages_from-AreSpeculates :
    (start : ℕ) (hashes : List Hash) → AreSpeculates (messages_from start hashes)
messages_from-AreSpeculates start [] = tt
messages_from-AreSpeculates start (op_hash ∷ rest) =
    (refl, messages_from-AreSpeculates (start + 1) rest)

length-messages_from :
    (start : ℕ) (hashes : List Hash) → length (messages_from start hashes) ≡ length hashes
length-messages_from start [] = refl
length-messages_from start (op_hash ∷ rest) = ap suc (length-messages_from (start + 1) rest)

module _ {S : Type 0} ⦃ops : KvStoreOps S⦄ (laws : KvStoreLaws S) where
  -- The log keeps its first `size` entries, and `count` entries follow that chain on from them.
  pub record Extends (kv kv' : S) (size count : ℕ) : Type 0 where
    pub old : (j : ℕ) → j < size → laws.at kv' j ≡ laws.at kv j
    pub new : (j : ℕ) → size ≤ j → j < size + count → laws.at kv' j ≡ some (next_entry laws kv' j)

  chain_hash-same :
      (kv kv' : S) (size : ℕ)
      → ((j : ℕ) → j < size → laws.at kv' j ≡ laws.at kv j)
      → chain_hash laws kv' size ≡ chain_hash laws kv size
  chain_hash-same kv kv' zero same = refl
  chain_hash-same kv kv' (suc k) same = rw (same k (omega arith))

  here_or_later :
      (size j count : ℕ)
      → size ≤ j
      → j < size + suc count
      → (size ≡ j) ⊎ ((size + 1 ≤ j) × (j < (size + 1) + count))
  here_or_later size j count le lt = omega arith

  Extends-later :
      (kv kv1 kv' : S) (size count : ℕ)
      → Grown laws kv kv1 size
      → Extends kv1 kv' (size + 1) count
      → Extends kv kv' size (suc count)
  Extends-later kv kv1 kv' size count grown e =
      let kept : (j : ℕ) → j < size → laws.at kv' j ≡ laws.at kv j = λ j h.
        let other : (size == j) ≡ false = ground arith in
        e.old j (omega arith) ∙ grown.log j ∙ rw other in
      let next : laws.at kv' size ≡ some (next_entry laws kv' size) =
        let here : (size == size) ≡ true = ground arith in
        e.old size (omega arith) ∙ grown.log size ∙ rw (here, chain_hash-same kv kv' size kept) in
      record {
        old = kept;
        new = λ j le lt. elim (here_or_later size j count le lt) [
          | inl here ↦ subst (λ k. laws.at kv' k ≡ some (next_entry laws kv' k)) here next
          | inr later ↦ e.new j later.0 later.1
        ];
      }

  run_node-Extends :
      (msgs : List Message) (kv : S) (size : ℕ) (r : Replica S)
      → AreSpeculates msgs
      → IsQuiet kv size r
      → size + length msgs < u64_mod
      → (kv' : S) × Extends kv kv' size (length msgs)
        × Returns (IsQuiet kv' (size + length msgs)) (run_node (delivered msgs) r).1
  unfolding run_node handle_input
  run_node-Extends [] kv size r are w small = (
    kv,
    record { old = λ j h. refl; new = λ j le lt. absurd (omega arith) },
    subst (λ n. IsQuiet kv n r) (omega arith) w,
  )
  run_node-Extends (msg ∷ msgs) kv size r are w small =
      let (kv1, grown, returns) =
        process_message-IsQuiet laws kv size msg r are.0 w (omega arith) in
      let (x, is, w1) =
        Returns-done (λ x. IsQuiet kv1 (size + 1) x.0) (process_message r msg) returns in
      let (kv', e, rest) = run_node-Extends msgs kv1 (size + 1) x.0 are.1 w1 (omega arith) in
      let same : (size + 1) + length msgs ≡ size + suc (length msgs) = omega arith in
      (
        kv',
        Extends-later kv kv1 kv' size (length msgs) grown e,
        rw is (subst (λ n. Returns (IsQuiet kv' n) (run_node (delivered msgs) x.0).1) same rest),
      )

  -- From a submission to the log: over a store that keeps its contract, a replica on the fast path
  -- that has no SYNC, CHECKPOINT or TIMEOUT and whose quorums are not 0 handles the messages that a
  -- new sequencer sends for a list of operations, in their order and with every other handler of
  -- `process_message` in between, without a panic; it stays on the fast path, its log grows by one
  -- entry for each operation, the earlier entries stay as they were, and each new entry has its index
  -- and the hash of the entry before it (zeros for the first), if the log stays shorter than 2^64.
  pub submit_all-Extends :
      (hashes : List Hash) (kv : S) (size : ℕ) (r : Replica S)
      → IsQuiet kv size r
      → size + length hashes < u64_mod
      → (kv' : S) × Extends kv kv' size (length hashes)
        × Returns
            (IsQuiet kv' (size + length hashes))
            (run_node (delivered (submit_all Sequencer.new hashes).0.sent) r).1
  submit_all-Extends hashes kv size r w small =
      let sent : (submit_all Sequencer.new hashes).0.sent ≡ messages_from 0 hashes =
        (submit_all-consecutive Sequencer.new hashes (omega arith)).1 in
      let counted = length-messages_from 0 hashes in
      rw (sent, ← counted)
        (run_node-Extends (messages_from 0 hashes) kv size r (messages_from-AreSpeculates 0 hashes)
          w (omega (arith, counted)))
