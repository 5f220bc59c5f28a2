-- ===== src/Prelude/HashSet.antt =====
-- `std::collections::HashSet`: a list with no element twice, in the order that its iterator takes.
-- An insertion of a new element puts it last: the order, which is unspecified in the source, decides
-- which of several REPAIR-HISTORYs a replica finds first.
pub mod Size
use Prim.Native.Nat.{suc}
use mathlib.Core.Path.{◌≡◌}
use mathlib.Core.Logic.{◌≢◌}
use mathlib.Core.Bool.{Bool, true, false}
use mathlib.Core.List.{List, [], ◌∷◌, ◌++◌}
use native.Mathlib.Omega.{arith}
use raspen.Prelude.Tests.{if◌then◌else◌}
use raspen.Prelude.Lists.{count_if, count_if-append}

module _ {ℓ} {A : Type ℓ} (dec : Discrete A) where
  unfoldable pub contains : A → List A → Bool
  contains a [] = false
  contains a (x ∷ xs) = let rest = contains a xs in elim (dec a x) [ yes _ ↦ true | no _ ↦ rest ]

  unfoldable pub insert : A → List A → List A
  insert a xs = if contains a xs then xs else xs ++ a ∷ []

  -- `collect::<HashSet<_>>()`
  unfoldable pub collect : List A → List A
  unfolding insert
  collect [] = []
  collect (x ∷ xs) = insert x (collect xs)

  pub contains-append_ne :
      (a b : A) (xs : List A) → a ≢ b → contains a xs ≡ false → contains a (xs ++ b ∷ []) ≡ false
  unfolding contains
  contains-append_ne a b [] ne h = ground arith
  contains-append_ne a b (x ∷ xs) ne h = ground (arith, contains-append_ne a b xs)

  -- Another element does not become a member by an insertion.
  pub contains-insert_ne :
      (a b : A) (xs : List A) → a ≢ b → contains a xs ≡ false → contains a (insert b xs) ≡ false
  unfolding insert
  contains-insert_ne a b xs ne h = ground (arith, contains-append_ne a b xs)

  -- A new element that is counted raises the count by one.
  pub count_if-insert_new :
      (p : A → Bool) (a : A) (xs : List A)
      → contains a xs ≡ false
      → p a ≡ true
      → count_if p (insert a xs) ≡ suc (count_if p xs)
  unfolding insert count_if
  count_if-insert_new p a xs new yes' = ground (arith, count_if-append p xs (a ∷ []))
