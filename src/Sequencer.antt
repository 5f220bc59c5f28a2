-- ===== src/Sequencer.antt =====
-- The crate raspen-sequencer (raspen/crates/sequencer/src/eta.rs and proxy.rs). The atomic
-- counter makes each submission one step; `sent` holds what was handed to the broadcast channel,
-- whose delivery belongs to tokio.
pub mod Concurrent
use raspen.Prelude.{
  ℕ, ◌+◌, ◌<◌, ◌≡◌, refl, sym, ap, ◌∙◌, append-nil, append_assoc, List, [], ◌∷◌, ◌++◌, length,
  arith, add64, add64_small, u64_mod,
}
use raspen.Types.{Hash, NodeId, Message, speculate}

-- `EtaAssigner::next`: the value before the increment, and the counter after it.
unfoldable pub next : ℕ → ℕ × ℕ
unfolding add64
next counter = (counter, add64 counter 1)

pub record Sequencer : Type 0 where
  pub eta : ℕ
  pub sent : List Message

abbrev pub new : Sequencer
new = record { eta = 0; sent = [] }

-- "sequencer"
abbrev pub sequencer_name : NodeId
sequencer_name = b's' ∷ b'e' ∷ b'q' ∷ b'u' ∷ b'e' ∷ b'n' ∷ b'c' ∷ b'e' ∷ b'r' ∷ []

unfoldable pub submit : Sequencer → Hash → Sequencer × ℕ
unfolding next
submit s op_hash =
    let (eta, counter) = next s.eta in
    (record { eta = counter; sent = s.sent ++ speculate sequencer_name 0 op_hash eta ∷ [] }, eta)

-- Submissions one after another, in the order in which they reach the counter.
unfoldable pub submit_all : Sequencer → List Hash → Sequencer × List ℕ
unfolding submit
submit_all s [] = (s, [])
submit_all s (op_hash ∷ rest) =
    let (s', eta) = submit s op_hash in let (end, etas) = submit_all s' rest in (end, eta ∷ etas)

-- The numbers from `start` on, one for each operation, and the messages that carry them.
abbrev pub etas_from : ℕ → List Hash → List ℕ
etas_from start [] = []
etas_from start (op_hash ∷ rest) = start ∷ etas_from (start + 1) rest

abbrev pub messages_from : ℕ → List Hash → List Message
messages_from start [] = []
messages_from start (op_hash ∷ rest) =
    speculate sequencer_name 0 op_hash start ∷ messages_from (start + 1) rest

-- As long as the counter does not reach 2^64, submissions get consecutive numbers, and one
-- SPECULATE for each operation, with its number, is sent in that order.
pub submit_all-consecutive :
    (s : Sequencer) (ops : List Hash)
    → s.eta + length ops < u64_mod
    → ((submit_all s ops).1 ≡ etas_from s.eta ops)
      × ((submit_all s ops).0.sent ≡ s.sent ++ messages_from s.eta ops)
      × ((submit_all s ops).0.eta ≡ s.eta + length ops)
unfolding submit_all
submit_all-consecutive s [] h = (refl, sym (append-nil s.sent), omega arith)
submit_all-consecutive s (op_hash ∷ rest) h =
    let s' = (submit s op_hash).0 in
    let counted : s'.eta ≡ s.eta + 1 = add64_small s.eta 1 (omega arith) in
    let ih = submit_all-consecutive s' rest (omega arith) in
    (
      ap (λ (l : List ℕ). s.eta ∷ l) (ih.0 ∙ ap (λ k. etas_from k rest) counted),
      ih.1
          ∙ append_assoc s.sent (speculate sequencer_name 0 op_hash s.eta ∷ [])
              (messages_from s'.eta rest)
          ∙ ap (λ k. s.sent ++ speculate sequencer_name 0 op_hash s.eta ∷ messages_from k rest)
              counted,
      omega (arith, ih.2),
    )
