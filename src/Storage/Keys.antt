-- ===== src/Storage/Keys.antt =====
-- `u64::to_be_bytes`, by which raspen/crates/storage/src/kv_store.rs makes the keys of RocksDB
-- (`entry_key`), and the order of byte strings, in which RocksDB keeps them.
use raspen.Prelude.{
  ℕ, zero, suc, ◌+◌, ◌*◌, ◌/◌, ◌%◌, ◌<◌, ◌≡◌, refl, ap, ◌∙◌, sym, Bool, true, false, List, [], ◌∷◌,
  ◌++◌, length, length-snoc, arith, ltb, leb, ◌==◌, bytes_eq, bytes_eq_iff, if◌then◌else◌, u64_mod,
}

-- The last `width` digits of `n` to the base 256, the highest first.
unfoldable pub be_bytes : (width n : ℕ) → List ℕ
be_bytes zero n = []
be_bytes (suc width) n = be_bytes width (n / 256) ++ n % 256 ∷ []

unfoldable pub entry_key : ℕ → List ℕ
unfolding be_bytes
entry_key idx = be_bytes 8 idx

-- The number that digits to the base 256 stand for, behind those of `n`: `u64::from_be_bytes`.
abbrev pub from_be : ℕ → List ℕ → ℕ
from_be n [] = n
from_be n (x ∷ xs) = from_be (n * 256 + x) xs

-- The order of byte strings: by the first byte that differs, a prefix first.
unfoldable pub bytes_leb : List ℕ → List ℕ → Bool
bytes_leb [] ys = true
bytes_leb (x ∷ xs) [] = false
bytes_leb (x ∷ xs) (y ∷ ys) = if x == y then bytes_leb xs ys else ltb x y

-- 256 ^ width
abbrev pub capacity : ℕ → ℕ
capacity zero = 1
capacity (suc width) = capacity width * 256

from_be-append : (n : ℕ) (xs : List ℕ) (x : ℕ) → from_be n (xs ++ x ∷ []) ≡ from_be n xs * 256 + x
from_be-append n [] x = refl
from_be-append n (y ∷ xs) x = from_be-append (n * 256 + y) xs x

length-be_bytes : (width n : ℕ) → length (be_bytes width n) ≡ width
unfolding be_bytes
length-be_bytes zero n = refl
length-be_bytes (suc width) n =
    length-snoc (be_bytes width (n / 256)) (n % 256) ∙ ap suc (length-be_bytes width (n / 256))

-- Reading what was written gives the number back, if it fits.
from_be-be_bytes : (width n : ℕ) → n < capacity width → from_be 0 (be_bytes width n) ≡ n
unfolding be_bytes
from_be-be_bytes zero n h = omega arith
from_be-be_bytes (suc width) n h = omega (
  arith,
  from_be-append 0 (be_bytes width (n / 256)) (n % 256),
  from_be-be_bytes width (n / 256) (omega arith),
)

bytes_leb-append :
    (xs ys : List ℕ) (a b : ℕ)
    → length xs ≡ length ys
    → bytes_leb (xs ++ a ∷ []) (ys ++ b ∷ [])
      ≡ (if bytes_eq xs ys then leb a b else bytes_leb xs ys)
unfolding bytes_leb bytes_eq
bytes_leb-append [] [] a b h = ground arith
bytes_leb-append [] (y ∷ ys) a b h = absurd (omega arith)
bytes_leb-append (x ∷ xs) [] a b h = absurd (omega arith)
bytes_leb-append (x ∷ xs) (y ∷ ys) a b h = ground (arith, bytes_leb-append xs ys a b)

-- The same digits stand for the same number, if it fits.
be_bytes-injective :
    (width m n : ℕ)
    → m < capacity width
    → n < capacity width
    → be_bytes width m ≡ be_bytes width n
    → m ≡ n
be_bytes-injective width m n hm hn e =
    sym (from_be-be_bytes width m hm) ∙ ap (from_be 0) e ∙ from_be-be_bytes width n hn

-- The digits stand in the order of the numbers.
bytes_leb-be_bytes :
    (width m n : ℕ)
    → m < capacity width
    → n < capacity width
    → bytes_leb (be_bytes width m) (be_bytes width n) ≡ leb m n
unfolding be_bytes bytes_leb
bytes_leb-be_bytes zero m n hm hn = ground arith
bytes_leb-be_bytes (suc width) m n hm hn =
    let high_m = be_bytes width (m / 256) in
    let high_n = be_bytes width (n / 256) in
    bytes_leb-append high_m high_n (m % 256) (n % 256)
      (length-be_bytes width (m / 256) ∙ sym (length-be_bytes width (n / 256)))
    ∙ ground (
      arith,
      bytes_eq_iff high_m high_n,
      be_bytes-injective width (m / 256) (n / 256),
      ap (be_bytes width),
      bytes_leb-be_bytes width (m / 256) (n / 256),
    )

-- The key of an index of 64 bits tells the index.
pub entry_key-injective : (i j : ℕ) → i < u64_mod → j < u64_mod → entry_key i ≡ entry_key j → i ≡ j
unfolding entry_key
entry_key-injective i j hi hj e = be_bytes-injective 8 i j hi hj e

-- The keys of indices of 64 bits stand in the order of the indices.
pub bytes_leb-entry_key :
    (i j : ℕ) → i < u64_mod → j < u64_mod → bytes_leb (entry_key i) (entry_key j) ≡ leb i j
unfolding entry_key
bytes_leb-entry_key i j hi hj = bytes_leb-be_bytes 8 i j hi hj

-- Two keys are equal just when the indices are.
pub bytes_eq-entry_key :
    (i j : ℕ) → i < u64_mod → j < u64_mod → bytes_eq (entry_key i) (entry_key j) ≡ (i == j)
bytes_eq-entry_key i j hi hj =
    ground
      (arith, bytes_eq_iff (entry_key i) (entry_key j), entry_key-injective i j hi hj, ap entry_key)
