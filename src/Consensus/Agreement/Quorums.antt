-- ===== src/Consensus/Agreement/Quorums.antt =====
-- Quorums of voters: how many of the nodes have a property, and what two quorums share.
use raspen.Prelude.{
  suc, ◌+◌, ◌≤◌, ◌<◌, ◌≡◌, Bool, true, false, ◌&&◌, List, [], ◌∷◌, length, count_if, arith,
  Bool-cases, inl, inr,
}
use raspen.Prelude.HashSet

module _ {A : Type 0} where
  -- If fewer elements of the list have the first property than the second, one has the second only.
  pub count_if-extra :
      (p q : A → Bool) (xs : List A)
      → count_if p xs < count_if q xs
      → (x : A) × (q x ≡ true) × (p x ≡ false)
  unfolding count_if
  count_if-extra p q [] h = absurd (omega arith)
  count_if-extra p q (x ∷ xs) h = elim (Bool-cases (q x)) [
    | inl yes' ↦ elim (Bool-cases (p x)) [
      | inl both ↦ count_if-extra p q xs (ground arith)
      | inr only ↦ (x, yes', only)
    ]
    | inr no' ↦ count_if-extra p q xs (ground arith)
  ]

  -- Two quorums that are larger together than the list share elements.
  pub count_if-both :
      (p q : A → Bool) (xs : List A)
      → count_if p xs + count_if q xs ≤ length xs + count_if (λ x. p x && q x) xs
  unfolding count_if
  count_if-both p q [] = omega arith
  count_if-both p q (x ∷ xs) = ground (arith, count_if-both p q xs)

  pub count_if_mono :
      (p q : A → Bool) (xs : List A)
      → ((x : A) → p x ≡ true → q x ≡ true)
      → count_if p xs ≤ count_if q xs
  unfolding count_if
  count_if_mono p q [] h = omega arith
  count_if_mono p q (x ∷ xs) h = ground (arith, count_if_mono p q xs h, h x)

  -- An element of the list that only the second property has raises its count.
  pub count_if-gain :
      (dec : Discrete A) (p q : A → Bool) (xs : List A) (a : A)
      → ((x : A) → p x ≡ true → q x ≡ true)
      → HashSet.contains dec a xs ≡ true
      → p a ≡ false
      → q a ≡ true
      → suc (count_if p xs) ≤ count_if q xs
  unfolding count_if HashSet.contains
  count_if-gain dec p q [] a h here out new = cc
  count_if-gain dec p q (x ∷ xs) a h here out new = elim (dec a x) [
    | yes same ↦ ground (arith, count_if_mono p q xs h, same)
    | no other ↦ ground (arith, count_if-gain dec p q xs a h, h x)
  ]
