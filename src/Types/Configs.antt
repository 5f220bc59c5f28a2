-- ===== src/Types/Configs.antt =====
-- raspen/crates/types/src/config.rs. The names that `for_test` gives are `r` and a decimal number,
-- written as bytes.
use raspen.Prelude.{
  ℕ, zero, suc, ◌+◌, ◌-◌, ◌/◌, ◌%◌, List, [], ◌∷◌, ◌==◌, add64, u64_mod, if◌then◌else◌,
}
use raspen.Types.Messages.{NodeId}

pub record Config : Type 0 where
  pub n : ℕ
  pub f : ℕ
  pub p : ℕ
  pub fast_quorum : ℕ
  pub byz_quorum : ℕ
  pub f_plus_1 : ℕ
  pub nodes_ordered : List NodeId

-- `a - b` on `usize`, which wraps in a release build.
unfoldable pub sub64 : ℕ → ℕ → ℕ
sub64 a b = (a + u64_mod - b) % u64_mod

-- The decimal digits of `n` in front of `rest`. There are fewer digits than `n + 1`, so that much
-- fuel is enough.
unfoldable pub decimal : (fuel n : ℕ) → List ℕ → List ℕ
decimal zero n rest = rest
decimal (suc fuel) n rest =
    let digits = (b'0' + n % 10) ∷ rest in
    let more = decimal fuel (n / 10) digits in if n / 10 == 0 then digits else more

-- `format!("r{}", i)`
unfoldable pub node_name : ℕ → NodeId
unfolding decimal
node_name i = b'r' ∷ decimal (suc i) i []

-- `(start..start + count).map(|i| format!("r{}", i)).collect()`
unfoldable pub node_names : (start count : ℕ) → List NodeId
unfolding node_name
node_names start zero = []
node_names start (suc count) = node_name start ∷ node_names (start + 1) count

unfoldable pub for_test : (n f p : ℕ) → Config
unfolding node_names sub64 add64
for_test n f p = record {
  n = n;
  f = f;
  p = p;
  fast_quorum = sub64 n p;
  byz_quorum = sub64 n f;
  f_plus_1 = add64 f 1;
  nodes_ordered = node_names 0 n;
}

unfoldable pub spec_default : Config
unfolding for_test
spec_default = for_test 6 1 1
