-- ===== src/Storage/BTreeMap.antt =====
-- `std::collections::BTreeMap<u64, V>`: an association list in the order of its keys.
use raspen.Prelude.{
  ℕ, ◌+◌, ◌≤◌, ◌≡◌, refl, Option, none, some, List, [], ◌∷◌, arith, ◌==◌, ltb, leb, if◌then◌else◌,
  Bool-cases, inl, inr,
}

module _ {ℓ} {V : Type ℓ} where
  unfoldable pub get : List (ℕ × V) → ℕ → Option V
  get [] i = none
  get ((j, v) ∷ m) i = if j == i then some v else get m i

  unfoldable pub insert : List (ℕ × V) → ℕ → V → List (ℕ × V)
  insert [] i v = (i, v) ∷ []
  insert ((j, w) ∷ m) i v =
      let rest = insert m i v in
      if i == j then (i, v) ∷ m else if ltb i j then (i, v) ∷ (j, w) ∷ m else (j, w) ∷ rest

  -- `iter().next_back()`: the pair with the highest key.
  unfoldable pub next_back : List (ℕ × V) → Option (ℕ × V)
  next_back [] = none
  next_back ((j, v) ∷ []) = some (j, v)
  next_back (x ∷ y ∷ m) = next_back (y ∷ m)

  -- Every key is above `low`, and the keys rise.
  abbrev pub RisesFrom : ℕ → List (ℕ × V) → Type 0
  RisesFrom low [] = Unit
  RisesFrom low ((j, v) ∷ m) = (low ≤ j) × RisesFrom (j + 1) m

  -- The order of the keys.
  abbrev pub IsOrdered : List (ℕ × V) → Type 0
  IsOrdered m = RisesFrom 0 m

  pub get-insert :
      (m : List (ℕ × V)) (i j : ℕ) (v : V)
      → get (insert m i v) j ≡ (if i == j then some v else get m j)
  unfolding get insert
  get-insert [] i j v = refl
  get-insert ((k, w) ∷ m) i j v = ground (arith, get-insert m i j v)

  insert-RisesFrom :
      (low i : ℕ) (v : V) (m : List (ℕ × V))
      → low ≤ i
      → RisesFrom low m
      → RisesFrom low (insert m i v)
  unfolding insert
  insert-RisesFrom low i v [] h r = (h, tt)
  insert-RisesFrom low i v ((j, w) ∷ m) h r = ground (arith, insert-RisesFrom (j + 1) i v m)

  -- An insertion keeps the keys in order.
  pub insert-IsOrdered : (m : List (ℕ × V)) (i : ℕ) (v : V) → IsOrdered m → IsOrdered (insert m i v)
  insert-IsOrdered m i v o = insert-RisesFrom 0 i v m (omega arith) o

  -- The pair with the highest key after an insertion.
  abbrev pub higher : Option (ℕ × V) → ℕ → V → Option (ℕ × V)
  higher none i v = some (i, v)
  higher (some (k, w)) i v = if leb k i then some (i, v) else some (k, w)

  next_back_above :
      (low : ℕ) (m : List (ℕ × V)) (k : ℕ) (w : V)
      → RisesFrom low m
      → next_back m ≡ some (k, w)
      → low ≤ k
  unfolding next_back
  next_back_above low [] k w r h = cc
  next_back_above low ((j, v) ∷ []) k w r h = ground arith
  next_back_above low ((j, v) ∷ (i, u) ∷ m) k w r h =
      omega (arith, next_back_above (j + 1) ((i, u) ∷ m) k w r.1 h)

  -- In a map in order an insertion has the highest key of the two.
  next_back-insert_from :
      (low : ℕ) (m : List (ℕ × V)) (i : ℕ) (v : V)
      → RisesFrom low m
      → next_back (insert m i v) ≡ higher (next_back m) i v
  unfolding next_back insert
  next_back-insert_from low [] i v r = refl
  next_back-insert_from low ((j, w) ∷ []) i v r = ground arith
  next_back-insert_from low ((j, w) ∷ (k, u) ∷ m) i v r = ground (
    arith,
    next_back-insert_from (j + 1) ((k, u) ∷ m) i v r.1,
    next_back_above (j + 1) ((k, u) ∷ m),
  )

  pub next_back-insert :
      (m : List (ℕ × V)) (i : ℕ) (v : V)
      → IsOrdered m
      → next_back (insert m i v) ≡ higher (next_back m) i v
  next_back-insert m i v r = next_back-insert_from 0 m i v r

  -- The highest pair is in the map.
  pub get-next_back_from :
      (low : ℕ) (m : List (ℕ × V)) (k : ℕ) (v : V)
      → RisesFrom low m
      → next_back m ≡ some (k, v)
      → get m k ≡ some v
  unfolding get next_back
  get-next_back_from low [] k v r h = cc
  get-next_back_from low ((j, w) ∷ []) k v r h = ground arith
  get-next_back_from low ((j, w) ∷ (i, u) ∷ m) k v r h = ground (
    arith,
    get-next_back_from (j + 1) ((i, u) ∷ m) k v r.1 h,
    next_back_above (j + 1) ((i, u) ∷ m) k v r.1 h,
  )

  -- Every key of the map is at most the highest.
  pub get-le-next_back_from :
      (low : ℕ) (m : List (ℕ × V)) (j : ℕ) (v : V)
      → RisesFrom low m
      → get m j ≡ some v
      → (k : ℕ) × (w : V) × (next_back m ≡ some (k, w)) × (j ≤ k)
  unfolding get next_back
  get-le-next_back_from low [] j v r h = cc
  get-le-next_back_from low ((i, w) ∷ []) j v r h = (i, w, refl, ground arith)
  get-le-next_back_from low ((i, w) ∷ (l, u) ∷ m) j v r h = elim (Bool-cases (i == j)) [
    | inl here ↦
        let (k, x, is, le) = get-le-next_back_from (i + 1) ((l, u) ∷ m) l u r.1 (ground arith) in
        (k, x, is, ground (arith, next_back_above (i + 1) ((l, u) ∷ m) k x r.1 is))
    | inr later ↦ get-le-next_back_from (i + 1) ((l, u) ∷ m) j v r.1 (ground arith)
  ]
