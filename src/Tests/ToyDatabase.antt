-- ===== src/Tests/ToyDatabase.antt =====
-- A database in memory and an encoding that stand for RocksDB and bincode.
use raspen.Prelude.{
  ℕ, zero, suc, ◌≡◌, ◌≢◌, refl, sym, ap, ◌∙◌, Bool, true, false, not, ◌&&◌, Option, none, some,
  List, [], ◌∷◌, ◌++◌, length, Result, ok, err, arith, ltb, ◌==◌, bytes_eq, bytes_eq_iff,
  bytes_eq_refl, Bool-cases, Option-cases, inl, inr, if◌then◌else◌,
}
use raspen.Types.{KvEntry}
use raspen.Storage.Keys.{bytes_leb}
use raspen.Storage.Database.{
  ColumnFamily, default, meta, cf_eq, Write, last_put, in_range, IsLast, DbOps, DbLaws, Bincode,
  BincodeLaws,
}

abbrev Pairs : Type 0
Pairs = List (List ℕ × List ℕ)

find : Pairs → List ℕ → Option (List ℕ)
find [] key = none
find ((k, v) ∷ m) key = if bytes_eq k key then some v else find m key

remove : List ℕ → List ℕ → Pairs → Pairs
remove low high [] = []
remove low high ((k, v) ∷ m) =
    let rest = remove low high m in if in_range low high k then rest else (k, v) ∷ rest

greater : List ℕ → Option (List ℕ) → List ℕ
greater k none = k
greater k (some l) = if bytes_leb k l then l else k

greatest : Pairs → Option (List ℕ)
unfolding greater
greatest [] = none
greatest ((k, v) ∷ m) = some (greater k (greatest m))

found_at : List ℕ → Option (List ℕ) → Option (Result (List ℕ × List ℕ))
found_at key none = none
found_at key (some value) = some (ok (key, value))

last_of : Option (List ℕ) → Pairs → Option (Result (List ℕ × List ℕ))
unfolding found_at
last_of none m = none
last_of (some key) m = found_at key (find m key)

pub record ToyDb : Type 0 where
  pub entries : Pairs
  pub meta_pairs : Pairs

family : ToyDb → ColumnFamily → Pairs
family d default = d.entries
family d meta = d.meta_pairs

update : ToyDb → ColumnFamily → (Pairs → Pairs) → ToyDb
update d default f = record d { entries = f d.entries }
update d meta f = record d { meta_pairs = f d.meta_pairs }

write_all : ToyDb → List Write → ToyDb
unfolding update
write_all d [] = d
write_all d (w ∷ writes) = write_all (update d w.cf λ m. (w.key, w.value) ∷ m) writes

instance abbrev pub toy_db : DbOps ToyDb
unfolding find family update write_all greatest last_of remove
toy_db = record {
  get_cf = λ d cf key. ok (find (family d cf) key);
  put_cf = λ d cf key value. ok (update d cf λ m. (key, value) ∷ m);
  write = λ d batch. ok (write_all d batch);
  delete_range_cf = λ d cf low high. ok (update d cf (remove low high));
  iterator_end = λ d. last_of (greatest d.entries) d.entries;
}

find-remove :
    (low high : List ℕ) (m : Pairs) (key : List ℕ)
    → find (remove low high m) key ≡ (if in_range low high key then none else find m key)
unfolding find remove
find-remove low high [] key = ground arith
find-remove low high ((k, v) ∷ m) key =
    ground (arith, bytes_eq_iff k key, find-remove low high m key)

bytes_leb_refl : (xs : List ℕ) → bytes_leb xs xs ≡ true
unfolding bytes_leb
bytes_leb_refl [] = refl
bytes_leb_refl (x ∷ xs) = ground (arith, bytes_leb_refl xs)

bytes_leb_total : (xs ys : List ℕ) → bytes_leb xs ys ≡ false → bytes_leb ys xs ≡ true
unfolding bytes_leb
bytes_leb_total [] ys h = cc
bytes_leb_total (x ∷ xs) [] h = refl
bytes_leb_total (x ∷ xs) (y ∷ ys) h = ground (arith, bytes_leb_total xs ys)

bytes_leb_trans :
    (xs ys zs : List ℕ) → bytes_leb xs ys ≡ true → bytes_leb ys zs ≡ true → bytes_leb xs zs ≡ true
unfolding bytes_leb
bytes_leb_trans [] ys zs h k = refl
bytes_leb_trans (x ∷ xs) [] zs h k = cc
bytes_leb_trans (x ∷ xs) (y ∷ ys) [] h k = cc
bytes_leb_trans (x ∷ xs) (y ∷ ys) (z ∷ zs) h k = ground (arith, bytes_leb_trans xs ys zs)

-- The greatest key is there, and no other is above it.
abbrev IsGreatest : Pairs → Option (List ℕ) → Type 0
IsGreatest m none = (key : List ℕ) → find m key ≡ none
IsGreatest m (some key) =
    ((value : List ℕ) × (find m key ≡ some value))
    × ((other : List ℕ) → find m other ≢ none → bytes_leb other key ≡ true)

Present : Pairs → List ℕ → Type 0
unfolding find
Present m key = (value : List ℕ) × (find m key ≡ some value)

Present-cons : (k v key : List ℕ) (m : Pairs) → Present m key → Present ((k, v) ∷ m) key
unfolding Present
Present-cons k v key m (value, is) = elim (Bool-cases (bytes_eq k key)) [
  | inl same ↦ (v, rw same)
  | inr other ↦ (value, rw other is)
]

greater-IsGreatest :
    (k v : List ℕ) (m : Pairs) (g : Option (List ℕ))
    → IsGreatest m g
    → IsGreatest ((k, v) ∷ m) (some (greater k g))
unfolding find greater Present
greater-IsGreatest k v m none h = (
  (v, rw (bytes_eq_refl k)),
  λ other there. ground (arith, h other, bytes_eq_iff k other, bytes_leb_refl k),
)
greater-IsGreatest k v m (some l) h = elim (Bool-cases (bytes_leb k l)) [
  | inl below ↦
      rw below
        (Present-cons k v l m h.0, λ other there. ground (arith, h.1 other, bytes_eq_iff k other))
  | inr above ↦ rw above (
    (v, rw (bytes_eq_refl k)),
    λ other there. ground (
      arith,
      h.1 other,
      bytes_eq_iff k other,
      bytes_leb_refl k,
      bytes_leb_total k l,
      bytes_leb_trans other l k,
    ),
  )
]

greatest-IsGreatest : (m : Pairs) → IsGreatest m (greatest m)
unfolding find greatest
greatest-IsGreatest [] = λ key. refl
greatest-IsGreatest ((k, v) ∷ m) = greater-IsGreatest k v m (greatest m) (greatest-IsGreatest m)

last_of-IsLast : (m : Pairs) (g : Option (List ℕ)) → IsGreatest m g → IsLast (find m) (last_of g m)
unfolding last_of
last_of-IsLast m none h = h
last_of-IsLast m (some key) h = rw h.0.1 (h.0.1, h.1)

find-update :
    (d : ToyDb) (cf cf' : ColumnFamily) (key value other : List ℕ)
    → find (family (update d cf λ m. (key, value) ∷ m) cf') other
      ≡ (if cf_eq cf cf' && bytes_eq key other then some value else find (family d cf') other)
unfolding find family update
find-update d default default key value other = refl
find-update d default meta key value other = refl
find-update d meta default key value other = refl
find-update d meta meta key value other = refl

find-write_all :
    (batch : List Write) (d : ToyDb) (cf : ColumnFamily) (key : List ℕ)
    → find (family (write_all d batch) cf) key ≡ last_put batch cf key (find (family d cf) key)
unfolding write_all last_put
find-write_all [] d cf key = refl
find-write_all (w ∷ writes) d cf key =
    find-write_all writes (update d w.cf λ m. (w.key, w.value) ∷ m) cf key
    ∙ ap (last_put writes cf key) (find-update d w.cf cf w.key w.value key)

find-delete :
    (d : ToyDb) (cf cf' : ColumnFamily) (low high key : List ℕ)
    → find (family (update d cf (remove low high)) cf') key
      ≡ (if cf_eq cf cf' && in_range low high key then none else find (family d cf') key)
unfolding family update
find-delete d default default low high key = find-remove low high d.entries key
find-delete d default meta low high key = refl
find-delete d meta default low high key = refl
find-delete d meta meta low high key = find-remove low high d.meta_pairs key

pub toy_db_laws : DbLaws ToyDb
unfolding find family update toy_db
toy_db_laws = record {
  at = λ d cf key. find (family d cf) key;
  get_at = λ d cf key. refl;
  put_at = λ d cf key value. (
    update d cf (λ m. (key, value) ∷ m),
    refl,
    λ cf' other. find-update d cf cf' key value other,
  );
  write_at = λ d batch. (write_all d batch, refl, find-write_all batch d);
  delete_at = λ d cf low high.
      (update d cf (remove low high), refl, λ cf' key. find-delete d cf cf' low high key);
  iterator_at = λ d. last_of-IsLast d.entries (greatest d.entries) (greatest-IsGreatest d.entries);
}

abbrev pub empty_db : ToyDb
empty_db = record { entries = []; meta_pairs = [] }

pub empty_db-at : (cf : ColumnFamily) (key : List ℕ) → toy_db_laws.at empty_db cf key ≡ none
unfolding find family toy_db_laws
empty_db-at default key = refl
empty_db-at meta key = refl

-- `n` bytes and the rest.
split_at : ℕ → List ℕ → List ℕ × List ℕ
split_at zero bytes = ([], bytes)
split_at (suc n) [] = ([], [])
split_at (suc n) (b ∷ bytes) = let (first, rest) = split_at n bytes in (b ∷ first, rest)

split_at-append : (xs ys : List ℕ) → split_at (length xs) (xs ++ ys) ≡ (xs, ys)
unfolding split_at
split_at-append [] ys = refl
split_at-append (x ∷ xs) ys = rw (split_at-append xs ys)

toy_decode : List ℕ → Result KvEntry
toy_decode (op_hash ∷ n ∷ bytes) =
    let (result, prev_hash) = split_at n bytes in
    ok (record { op_hash = op_hash; result = result; prev_hash = prev_hash })
toy_decode _ = err raspen.Prelude.bincode_decode

toy_decode_u64 : List ℕ → Result ℕ
toy_decode_u64 (n ∷ []) = ok n
toy_decode_u64 _ = err raspen.Prelude.bincode_decode

instance abbrev pub toy_bincode : Bincode
unfolding toy_decode toy_decode_u64 split_at
toy_bincode = record {
  codec = record {
    encode = λ e. ok (e.op_hash ∷ length e.result ∷ (e.result ++ e.prev_hash));
    digest = λ bytes. bytes;
  };
  decode_entry = toy_decode;
  encode_u64 = λ n. ok (n ∷ []);
  decode_u64 = toy_decode_u64;
  encode_hash = λ h. ok h;
  decode_hash = λ b. ok b;
}

decodes :
    (op_hash : ℕ) (result prev_hash : List ℕ)
    → toy_decode (op_hash ∷ length result ∷ (result ++ prev_hash))
      ≡ ok (record { op_hash = op_hash; result = result; prev_hash = prev_hash })
unfolding toy_decode
decodes op_hash result prev_hash = rw (split_at-append result prev_hash)

reads : (n : ℕ) → toy_decode_u64 (n ∷ []) ≡ ok n
unfolding toy_decode_u64
reads n = refl

pub toy_bincode_laws : BincodeLaws toy_bincode
unfolding toy_bincode
toy_bincode_laws = record {
  entry = λ e. (
    e.op_hash ∷ length e.result ∷ (e.result ++ e.prev_hash),
    refl,
    decodes e.op_hash e.result e.prev_hash,
  );
  u64 = λ n. (n ∷ [], refl, reads n);
  hash = λ h. (h, refl, refl);
}
