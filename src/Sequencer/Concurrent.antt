-- ===== src/Sequencer/Concurrent.antt =====
-- Submissions of several clients at once (raspen/crates/sequencer/src/proxy.rs): `submit` takes a
-- number from the atomic counter in one step, and hands its message to the broadcast channel in a
-- later one.
use raspen.Prelude.{
  ℕ, zero, suc, ◌+◌, ◌<◌, ◌≡◌, refl, ◌∙◌, Bool, false, Option, none, some, List, [], ◌∷◌, ◌++◌,
  count_if, count_if-append, arith, ltb, ◌==◌, add64_small, u64_mod, if◌then◌else◌,
}
use raspen.Types.{Hash, Message, speculate}
use raspen.Sequencer.{next, sequencer_name}

-- A client between the two steps of its `submit`.
pub record Client : Type 0 where
  pub op_hash : Hash
  pub eta : ℕ

pub record Race : Type 0 where
  pub counter : ℕ
  pub clients : List Client
  pub sent : List Message

abbrev pub idle : Race
idle = record { counter = 0; clients = []; sent = [] }

-- `let eta = self.eta.next()`
unfoldable pub assign : Race → Hash → Race
unfolding next
assign r op_hash =
    let (eta, counter) = next r.counter in
    record r {
      counter = counter;
      clients = r.clients ++ record { op_hash = op_hash; eta = eta } ∷ [];
    }

abbrev keep : Client → Option (Client × List Client) → Option (Client × List Client)
keep c none = none
keep c (some (d, rest)) = some (d, c ∷ rest)

-- The element at a place, and the others.
unfoldable pub take_at : ℕ → List Client → Option (Client × List Client)
take_at i [] = none
take_at zero (c ∷ clients) = some (c, clients)
take_at (suc i) (c ∷ clients) = keep c (take_at i clients)

-- `self.sender.send(Message::Speculate { .. })`, by one of the clients.
unfoldable pub send : Race → Client → List Client → Race
send r client others = record r {
  clients = others;
  sent = r.sent ++ speculate sequencer_name 0 client.op_hash client.eta ∷ [];
}

-- What a number of submissions may come to, in any order of their steps.
pub data Reach : ℕ → Race → Type 0 where
  none_yet : Reach 0 idle
  assigned : {n : ℕ} {r : Race} (op_hash : Hash) → Reach n r → Reach (suc n) (assign r op_hash)
  broadcasted :
      {n : ℕ} {r : Race} (i : ℕ) (client : Client) (others : List Client)
      → Reach n r
      → take_at i r.clients ≡ some (client, others)
      → Reach n (send r client others)

abbrev pub holds : ℕ → Client → Bool
holds k client = client.eta == k

abbrev pub carries : ℕ → Message → Bool
carries k (speculate _ _ _ eta) = eta == k
carries k _ = false

count_if-keep :
    (p : Client → Bool) (c : Client) (clients : List Client) (client : Client)
    (others : List Client) (found : Option (Client × List Client))
    → ((d : Client) (rest : List Client)
        → found ≡ some (d, rest)
        → count_if p clients ≡ (if p d then 1 else 0) + count_if p rest)
    → keep c found ≡ some (client, others)
    → count_if p (c ∷ clients) ≡ (if p client then 1 else 0) + count_if p others
unfolding count_if
count_if-keep p c clients client others none ih e = cc
count_if-keep p c clients client others (some (d, rest)) ih e = ground (arith, ih d rest refl)

count_if-take_at :
    (p : Client → Bool) (i : ℕ) (clients : List Client) (client : Client) (others : List Client)
    → take_at i clients ≡ some (client, others)
    → count_if p clients ≡ (if p client then 1 else 0) + count_if p others
unfolding take_at count_if
count_if-take_at p i [] client others h = cc
count_if-take_at p zero (c ∷ clients) client others h = ground arith
count_if-take_at p (suc i) (c ∷ clients) client others h =
    count_if-keep p c clients client others (take_at i clients) (count_if-take_at p i clients) h

-- Who has the number `k`.
abbrev pub owners : ℕ → Race → ℕ
owners k r = count_if (holds k) r.clients + count_if (carries k) r.sent

-- In every order of the steps of fewer than 2^64 submissions, each number below the count of
-- submissions belongs to exactly one of them, a client that has yet to send or a message that was
-- sent, and no other number belongs to any.
pub owners-Reach :
    (n k : ℕ) (r : Race)
    → Reach n r
    → n < u64_mod
    → (r.counter ≡ n) × (owners k r ≡ (if ltb k n then 1 else 0))
unfolding assign send count_if
owners-Reach n k r none_yet h = (refl, ground arith)
owners-Reach n' k r' (assigned {n = n} {r = r} op_hash reach) h =
    let ih = owners-Reach n k r reach (omega arith) in
    let small : r.counter + 1 < u64_mod = omega (arith, ih.0) in
    (
      add64_small r.counter 1 small ∙ omega (arith, ih.0),
      ground (
        arith,
        ih.0,
        ih.1,
        count_if-append (holds k) r.clients (record { op_hash = op_hash; eta = r.counter } ∷ []),
      ),
    )
owners-Reach n k r' (broadcasted {r = r} i client others reach taken) h =
    let ih = owners-Reach n k r reach h in
    (
      ih.0,
      ground (
        arith,
        ih.1,
        count_if-take_at (holds k) i r.clients client others taken,
        count_if-append (carries k) r.sent
            (speculate sequencer_name 0 client.op_hash client.eta ∷ []),
      ),
    )
