-- ===== src/Prelude/HashSet/Size.antt =====
-- How many elements a set that is collected from a list has.
use Prim.Native.Nat.{suc, ◌≤◌}
use mathlib.Core.Path.{◌≡◌, refl, sym, ap, ◌∙◌}
use mathlib.Core.Logic.{inl, inr}
use mathlib.Core.Bool.{true, false, ◌||◌}
use mathlib.Core.List.{List, [], ◌∷◌, ◌++◌}
use native.Mathlib.Omega.{arith}
use raspen.Prelude.Tests.{Bool-cases}
use raspen.Prelude.Lists.{length, length-snoc, count_if, All, All-append}
use raspen.Prelude.HashSet.{contains, insert, collect}

module _ {A : Type 0} (dec : Discrete A) where
  -- No element stands in the list twice.
  abbrev pub Distinct : List A → Type 0
  Distinct [] = Unit
  Distinct (x ∷ xs) = (contains dec x xs ≡ false) × Distinct xs

  -- Every element is in the other list.
  abbrev pub Within : List A → List A → Type 0
  Within nodes [] = Unit
  Within nodes (x ∷ xs) = (contains dec x nodes ≡ true) × Within nodes xs

  pub contains-snoc :
      (a b : A) (xs : List A)
      → contains dec a (xs ++ b ∷ []) ≡ (contains dec a xs || contains dec a (b ∷ []))
  unfolding contains
  contains-snoc a b [] = ground arith
  contains-snoc a b (x ∷ xs) = ground (arith, contains-snoc a b xs)

  -- What is in a list is what is in the set of its elements.
  pub contains-collect : (a : A) (xs : List A) → contains dec a (collect dec xs) ≡ contains dec a xs
  unfolding collect insert contains
  contains-collect a [] = refl
  contains-collect a (x ∷ xs) =
      ground
        (arith, contains-collect a xs, contains-collect x xs, contains-snoc a x (collect dec xs))

  -- An element that is not in the list changes no count.
  count_if-absent :
      (a : A) (xs nodes : List A)
      → contains dec a nodes ≡ false
      → count_if (λ x. contains dec x (a ∷ xs)) nodes ≡ count_if (λ x. contains dec x xs) nodes
  unfolding contains count_if
  count_if-absent a xs [] h = refl
  count_if-absent a xs (y ∷ ys) h = ground (arith, count_if-absent a xs ys)

  -- A new element that is in the list once raises the count by one.
  count_if-new :
      (a : A) (xs nodes : List A)
      → Distinct nodes
      → contains dec a nodes ≡ true
      → contains dec a xs ≡ false
      → count_if (λ x. contains dec x (a ∷ xs)) nodes
        ≡ suc (count_if (λ x. contains dec x xs) nodes)
  unfolding contains count_if
  count_if-new a xs [] d here new = cc
  count_if-new a xs (y ∷ ys) d here new = elim (dec a y) [
    | yes same ↦ ground (arith, same, d.0, count_if-absent a xs ys)
    | no other ↦ ground (arith, other, count_if-new a xs ys d.1)
  ]

  -- An element that was there already changes no count.
  count_if-known :
      (a : A) (xs nodes : List A)
      → contains dec a xs ≡ true
      → count_if (λ x. contains dec x (a ∷ xs)) nodes ≡ count_if (λ x. contains dec x xs) nodes
  unfolding contains count_if
  count_if-known a xs [] h = refl
  count_if-known a xs (y ∷ ys) h = ground (arith, count_if-known a xs ys h)

  count_if-empty : (nodes : List A) → count_if (λ x. contains dec x []) nodes ≡ 0
  unfolding contains count_if
  count_if-empty [] = refl
  count_if-empty (y ∷ ys) = count_if-empty ys

  -- The size of the set of a list's elements is the count of the nodes that are in the list.
  pub length-collect :
      (xs nodes : List A)
      → Distinct nodes
      → Within nodes xs
      → length (collect dec xs) ≡ count_if (λ x. contains dec x xs) nodes
  unfolding collect insert
  length-collect [] nodes d w = sym (count_if-empty nodes)
  length-collect (x ∷ xs) nodes d w =
      let ih = length-collect xs nodes d w.1 in
      elim (Bool-cases (contains dec x xs)) [
        | inl known ↦ rw (contains-collect x xs, known) (ih ∙ sym (count_if-known x xs nodes known))
        | inr new ↦
            rw (contains-collect x xs, new)
              (length-snoc (collect dec xs) x ∙ ap suc ih ∙ sym (count_if-new x xs nodes d w.0 new))
      ]

  pub contains-insert : (a : A) (xs : List A) → contains dec a (insert dec a xs) ≡ true
  unfolding insert contains
  contains-insert a xs = ground (arith, contains-snoc a a xs)

  -- A second insertion changes nothing.
  pub insert-insert : (a : A) (xs : List A) → insert dec a (insert dec a xs) ≡ insert dec a xs
  unfolding insert
  insert-insert a xs = rw (contains-insert a xs) refl

  -- An insertion adds an element at most.
  pub length-insert :
      (a : A) (xs : List A)
      → (length xs ≤ length (insert dec a xs)) × (length (insert dec a xs) ≤ suc (length xs))
  unfolding insert
  length-insert a xs = ground (arith, length-snoc xs a)

  -- The set of a list's elements has no more of them.
  pub length-collect-le : (xs : List A) → length (collect dec xs) ≤ length xs
  unfolding collect
  length-collect-le [] = omega arith
  length-collect-le (x ∷ xs) =
      ground (arith, length-insert x (collect dec xs), length-collect-le xs)

  pub All-insert : (P : A → Type 0) (a : A) (xs : List A) → All P xs → P a → All P (insert dec a xs)
  unfolding insert
  All-insert P a xs all here = elim (Bool-cases (contains dec a xs)) [
    | inl old ↦ rw old all
    | inr new ↦ rw new (All-append P xs (a ∷ []) all (here, tt))
  ]
