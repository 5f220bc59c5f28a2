-- ===== src/Types/Names.antt =====
-- The node names and quorums of `Config::for_test` (raspen/crates/types/src/config.rs).
use raspen.Prelude.{
  ℕ, zero, suc, ◌+◌, ◌-◌, ◌*◌, ◌/◌, ◌%◌, ◌<◌, ◌≤◌, ◌≡◌, refl, sym, ap, ◌∙◌, some, List, [], ◌∷◌,
  length, get_elem?, arith, ◌==◌, u64_mod, add64, Bool-cases, inl, inr,
}
use raspen.Types.Messages.{NodeId}
use raspen.Types.Configs.{sub64, decimal, node_name, node_names, for_test}

-- The number that decimal digits stand for, behind those of `n`.
abbrev pub read_decimal : ℕ → List ℕ → ℕ
read_decimal n [] = n
read_decimal n (d ∷ digits) = read_decimal (n * 10 + (d - b'0')) digits

read_decimal-decimal :
    (fuel n : ℕ) (rest : List ℕ)
    → n < fuel
    → read_decimal 0 (decimal fuel n rest) ≡ read_decimal n rest
unfolding decimal
read_decimal-decimal zero n rest h = absurd (omega arith)
read_decimal-decimal (suc fuel) n rest h = elim (Bool-cases (n / 10 == 0)) [
  | inl small ↦
      let digit : 0 * 10 + (b'0' + n % 10 - b'0') ≡ n = ground arith in
      rw small (ap (λ k. read_decimal k rest) digit)
  | inr large ↦
      let digit : n / 10 * 10 + (b'0' + n % 10 - b'0') ≡ n = omega arith in
      let less : n / 10 < fuel = ground arith in
      rw large (
        read_decimal-decimal fuel (n / 10) ((b'0' + n % 10) ∷ rest) less
        ∙ ap (λ k. read_decimal k rest) digit)
]

-- The digits of a name.
abbrev pub digits_of : NodeId → List ℕ
digits_of [] = []
digits_of (r ∷ digits) = digits

-- The number of a node is read back from its name.
pub read_decimal-node_name : (i : ℕ) → read_decimal 0 (digits_of (node_name i)) ≡ i
unfolding node_name
read_decimal-node_name i = read_decimal-decimal (suc i) i [] (omega arith)

node_names_at :
    (start count i : ℕ) (x : NodeId)
    → get_elem? (node_names start count) i ≡ some x
    → x ≡ node_name (start + i)
unfolding node_names
node_names_at start zero i x h = cc
node_names_at start (suc count) zero x h = ground arith
node_names_at start (suc count) (suc i) x h =
    let place : start + 1 + i ≡ start + suc i = omega arith in
    node_names_at (start + 1) count i x h ∙ ap node_name place

length-node_names : (start count : ℕ) → length (node_names start count) ≡ count
unfolding node_names
length-node_names start zero = refl
length-node_names start (suc count) = ap suc (length-node_names (start + 1) count)

-- In a configuration of `for_test` no two nodes have one name.
pub for_test_names :
    (n f p i j : ℕ) (x : NodeId)
    → get_elem? (for_test n f p).nodes_ordered i ≡ some x
    → get_elem? (for_test n f p).nodes_ordered j ≡ some x
    → i ≡ j
unfolding for_test
for_test_names n f p i j x at_i at_j =
    let same = sym (node_names_at 0 n i x at_i) ∙ node_names_at 0 n j x at_j in
    let number = ap (λ (y : NodeId). read_decimal 0 (digits_of y)) same in
    omega (arith, read_decimal-node_name (0 + i), read_decimal-node_name (0 + j), number)

-- With f and p up to n, n a `u64`, and more than 3 f nodes, a configuration of `for_test` has n
-- nodes, its quorums are n - p, n - f and f + 1, two Byzantine quorums share more than f nodes, and a
-- Byzantine quorum holds more than f nodes.
pub for_test_quorums :
    (n f p : ℕ)
    → n < u64_mod
    → p ≤ n
    → 3 * f < n
    → (length (for_test n f p).nodes_ordered ≡ n)
      × ((for_test n f p).fast_quorum + p ≡ n)
      × ((for_test n f p).byz_quorum + f ≡ n)
      × ((for_test n f p).f_plus_1 ≡ f + 1)
      × (length (for_test n f p).nodes_ordered + f
          < (for_test n f p).byz_quorum + (for_test n f p).byz_quorum)
      × ((for_test n f p).f_plus_1 ≤ (for_test n f p).byz_quorum)
unfolding for_test sub64 add64
for_test_quorums n f p small le more = omega (arith, length-node_names 0 n)
