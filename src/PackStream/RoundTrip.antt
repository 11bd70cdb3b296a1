-- ===== src/PackStream/RoundTrip.antt =====
-- What bolt/src/packstream.rs encodes, its reader gives back.
use ontological_db.Base.{ℕ, zero, suc, ◌+◌, ◌^◌, ◌≤◌, ◌<◌, ◌≡◌, refl, ap, ◌∙◌, arith}
use ontological_db.Base.{List, ◌∷◌, ◌++◌, length, append_assoc, true, false, Bool}
use ontological_db.Base.Int.{ℤ, IsI64}
use ontological_db.Base.Outcome.{ok}
use ontological_db.Text.Utf8.{is_utf8}
use ontological_db.PackStream.Value.{
  Value, Values, Entries, null, bool, int, float, string, list, dict, structure, nil, cons, end,
  entry, count, count_entries, insert_all, insert, IsSorted, nesting, nesting_values,
  nesting_entries,
}
use ontological_db.PackStream.Encode.{encode, encode_values, encode_entries, encode_string}
use ontological_db.PackStream.Reader.{
  max_depth, enter, leave, value, members, pairs, as_key, read_list, read_dict, read_structure,
  byte, dispatch, read_value,
}
use ontological_db.PackStream.Sorted.{insert_all-sorted}
use ontological_db.PackStream.Scalars.{string_read, float_read, int_read}
use ontological_db.PackStream.Headers.{at, list_header, dict_header, structure_header}

-- What the Rust types hold by construction (64-bit numbers, UTF-8 texts, maps in the order of their
-- keys), with sizes below 2^32 and at most 15 fields in a structure.
unfoldable mutual
  pub IsEncodable : Value → Type 0
  IsEncodable null = Unit
  IsEncodable (bool b) = Unit
  IsEncodable (int i) = IsI64 i
  IsEncodable (float x) = x < 2 ^ 64
  IsEncodable (string s) = (length s < 2 ^ 32) × (is_utf8 s ≡ true)
  IsEncodable (list xs) = (count xs < 2 ^ 32) × AreEncodable xs
  IsEncodable (dict m) = (count_entries m < 2 ^ 32) × IsSorted m × EntriesEncodable m
  IsEncodable (structure sig fs) = (sig < 256) × (count fs < 16) × AreEncodable fs

  pub AreEncodable : Values → Type 0
  AreEncodable nil = Unit
  AreEncodable (cons v vs) = IsEncodable v × AreEncodable vs

  pub EntriesEncodable : Entries → Type 0
  EntriesEncodable end = Unit
  EntriesEncodable (entry k v es) =
      (length k < 2 ^ 32) × (is_utf8 k ≡ true) × IsEncodable v × EntriesEncodable es

enter-at : (bs : List ℕ) (d : ℕ) → d < max_depth → enter (at bs d) ≡ ok (at bs (suc d))
unfolding enter
enter-at bs d h = ground arith

leave-at : (bs : List ℕ) (d : ℕ) → leave (at bs (suc d)) ≡ at bs d
leave-at bs d = ap (at bs) (omega arith)

abbrev Reads : Value → Type 0
Reads v =
    (f d : ℕ) (rest : List ℕ)
    → IsEncodable v
    → nesting v < f
    → nesting v + d ≤ max_depth
    → value f (at (encode v ++ rest) d) ≡ ok (v, at rest d)

abbrev ReadsAll : Values → Type 0
ReadsAll vs =
    (f d : ℕ) (rest : List ℕ)
    → AreEncodable vs
    → nesting_values vs < f
    → nesting_values vs + d ≤ max_depth
    → members (value f) (count vs) (at (encode_values vs ++ rest) d) ≡ ok (vs, at rest d)

abbrev ReadsEntries : Entries → Type 0
ReadsEntries es =
    (f d : ℕ) (rest : List ℕ) (m : Entries)
    → EntriesEncodable es
    → nesting_entries es < f
    → nesting_entries es + d ≤ max_depth
    → pairs (value f) (count_entries es) m (at (encode_entries es ++ rest) d)
      ≡ ok (insert_all m es, at rest d)

-- `value` takes the bytes off the front of an input and gives `v`.
abbrev Takes : List ℕ → Value → ℕ → List ℕ → ℕ → Type 0
Takes bs v d rest f = value f (at (bs ++ rest) d) ≡ ok (v, at rest d)

-- Fuel above any bound is a successor.
spend {ℓ} : {n : ℕ} (P : ℕ → Type ℓ) (f : ℕ) → n < f → ((g : ℕ) → n ≤ g → P (suc g)) → P f
spend P zero h k = absurd (omega arith)
spend P (suc g) h k = k g (omega arith)

module _ (g d : ℕ) (rest : List ℕ) where
  int_at : (i : ℤ) → IsI64 i → value (suc g) (at (encode (int i) ++ rest) d) ≡ ok (int i, at rest d)
  unfolding encode
  int_at = int_read g d rest

  float_at :
      (x : ℕ)
      → x < 2 ^ 64
      → value (suc g) (at (encode (float x) ++ rest) d) ≡ ok (float x, at rest d)
  unfolding encode
  float_at = float_read g d rest

  string_at :
      (s : List ℕ)
      → length s < 2 ^ 32
      → is_utf8 s ≡ true
      → value (suc g) (at (encode (string s) ++ rest) d) ≡ ok (string s, at rest d)
  unfolding encode
  string_at = string_read g d rest

  read_nil : members (value g) 0 (at (encode_values nil ++ rest) d) ≡ ok (nil, at rest d)
  unfolding members encode
  read_nil = refl

  read_end :
      (m : Entries) → pairs (value g) 0 m (at (encode_entries end ++ rest) d) ≡ ok (m, at rest d)
  unfolding pairs encode
  read_end m = refl

-- One container or member, from what its parts read.
module _ (g d : ℕ) (rest : List ℕ) where
  read_null : value (suc g) (at (encode null ++ rest) d) ≡ ok (null, at rest d)
  unfolding value byte dispatch encode
  read_null = refl

  read_bool : (b : Bool) → value (suc g) (at (encode (bool b) ++ rest) d) ≡ ok (bool b, at rest d)
  unfolding value byte dispatch encode
  read_bool true = refl
  read_bool false = refl

  list_step :
      (xs : Values)
      → count xs < 2 ^ 32
      → d < max_depth
      → members (value g) (count xs) (at (encode_values xs ++ rest) (suc d))
        ≡ ok (xs, at rest (suc d))
      → value (suc g) (at (encode (list xs) ++ rest) d) ≡ ok (list xs, at rest d)
  unfolding encode
  list_step xs small room h = rw append_assoc (
      list_header g d (encode_values xs ++ rest) (count xs) small
      ∙ unfold read_list in rw (enter-at (encode_values xs ++ rest) d room, h, leave-at))

  dict_step :
      (m : Entries)
      → count_entries m < 2 ^ 32
      → d < max_depth
      → pairs (value g) (count_entries m) end (at (encode_entries m ++ rest) (suc d))
        ≡ ok (m, at rest (suc d))
      → value (suc g) (at (encode (dict m) ++ rest) d) ≡ ok (dict m, at rest d)
  unfolding encode
  dict_step m small room h = rw append_assoc (
      dict_header g d (encode_entries m ++ rest) (count_entries m) small
      ∙ unfold read_dict in rw (enter-at (encode_entries m ++ rest) d room, h, leave-at))

  structure_step :
      (sig : ℕ) (fs : Values)
      → count fs < 16
      → d < max_depth
      → members (value g) (count fs) (at (encode_values fs ++ rest) (suc d))
        ≡ ok (fs, at rest (suc d))
      → value (suc g) (at (encode (structure sig fs) ++ rest) d) ≡ ok (structure sig fs, at rest d)
  unfolding encode
  structure_step sig fs small room h =
      structure_header g d (sig ∷ encode_values fs ++ rest) (count fs) small
      ∙ unfold read_structure byte in
        rw (enter-at (sig ∷ encode_values fs ++ rest) d room, h, leave-at)

module _ (f d : ℕ) (rest : List ℕ) where
  cons_step :
      (v : Value) (vs : Values)
      → value f (at (encode v ++ (encode_values vs ++ rest)) d)
        ≡ ok (v, at (encode_values vs ++ rest) d)
      → members (value f) (count vs) (at (encode_values vs ++ rest) d) ≡ ok (vs, at rest d)
      → members (value f) (count (cons v vs)) (at (encode_values (cons v vs) ++ rest) d)
        ≡ ok (cons v vs, at rest d)
  unfolding encode members
  cons_step v vs h hs = rw (append_assoc, h, hs)

  entry_step :
      (k : List ℕ) (v : Value) (es m : Entries)
      → value f (at (encode_string k ++ (encode v ++ (encode_entries es ++ rest))) d)
        ≡ ok (string k, at (encode v ++ (encode_entries es ++ rest)) d)
      → value f (at (encode v ++ (encode_entries es ++ rest)) d)
        ≡ ok (v, at (encode_entries es ++ rest) d)
      → pairs (value f) (count_entries es) (insert k v m) (at (encode_entries es ++ rest) d)
        ≡ ok (insert_all m (entry k v es), at rest d)
      → pairs
          (value f)
          (count_entries (entry k v es))
          m
          (at (encode_entries (entry k v es) ++ rest) d)
        ≡ ok (insert_all m (entry k v es), at rest d)
  unfolding encode pairs as_key
  entry_step k v es m hk h hs = rw (append_assoc, append_assoc, hk, h, hs)

key_read :
    {n : ℕ} (f d : ℕ) (rest k : List ℕ)
    → n < f
    → length k < 2 ^ 32
    → is_utf8 k ≡ true
    → value f (at (encode_string k ++ rest) d) ≡ ok (string k, at rest d)
key_read f d rest k n h u =
    spend (Takes (encode_string k) (string k) d rest) f n λ g b. string_read g d rest k h u

mutual
  unfolding nesting IsEncodable insert_all

  read_one : (v : Value) → Reads v
  read_one null f d rest h n k =
      spend (Takes (encode null) null d rest) f n λ g b. read_null g d rest
  read_one (bool t) f d rest h n k =
      spend (Takes (encode (bool t)) (bool t) d rest) f n λ g b. read_bool g d rest t
  read_one (int i) f d rest h n k =
      spend (Takes (encode (int i)) (int i) d rest) f n λ g b. int_at g d rest i h
  read_one (float x) f d rest h n k =
      spend (Takes (encode (float x)) (float x) d rest) f n λ g b. float_at g d rest x h
  read_one (string s) f d rest h n k =
      spend (Takes (encode (string s)) (string s) d rest) f n λ g b. string_at g d rest s h.0 h.1
  read_one (list xs) f d rest h n k = spend (Takes (encode (list xs)) (list xs) d rest) f n λ g b.
      list_step g d rest xs h.0 (omega arith)
        (read_all xs g (suc d) rest h.1 (omega arith) (omega arith))
  read_one (dict m) f d rest h n k = spend (Takes (encode (dict m)) (dict m) d rest) f n λ g b.
      dict_step g d rest m h.0 (omega arith) (
        read_entries m g (suc d) rest end h.2 (omega arith) (omega arith)
        ∙ ap (λ es. ok (es, at rest (suc d))) (insert_all-sorted m h.1))
  read_one (structure sig fs) f d rest h n k =
      spend (Takes (encode (structure sig fs)) (structure sig fs) d rest) f n λ g b.
        structure_step g d rest sig fs h.1 (omega arith)
          (read_all fs g (suc d) rest h.2 (omega arith) (omega arith))

  read_all : (vs : Values) → ReadsAll vs
  read_all nil f d rest h n k = read_nil f d rest
  read_all (cons v vs) f d rest h n k =
      cons_step f d rest v vs
        (read_one v f d (encode_values vs ++ rest) h.0 (omega arith) (omega arith))
        (read_all vs f d rest h.1 (omega arith) (omega arith))

  read_entries : (es : Entries) → ReadsEntries es
  read_entries end f d rest m h n k = read_end f d rest m
  read_entries (entry key v es) f d rest m h n k =
      entry_step f d rest key v es m
        (key_read f d (encode v ++ (encode_entries es ++ rest)) key n h.0 h.1)
        (read_one v f d (encode_entries es ++ rest) h.2 (omega arith) (omega arith))
        (read_entries es f d rest (insert key v m) h.3 (omega arith) (omega arith))

-- A reader with room for the nesting takes an encoded value off the front of any input, and leaves
-- the rest and its own depth as they were.
pub value-encode :
    (v : Value) (f d : ℕ) (rest : List ℕ)
    → IsEncodable v
    → nesting v < f
    → nesting v + d ≤ max_depth
    → value f (at (encode v ++ rest) d) ≡ ok (v, at rest d)
value-encode v = read_one v

-- Decoding what `encode` wrote gives the value back, for every encodable value that nests at most
-- 64 deep, and consumes exactly its bytes.
pub read_value-encode :
    (v : Value) (rest : List ℕ)
    → IsEncodable v
    → nesting v ≤ max_depth
    → read_value (encode v ++ rest) ≡ ok (v, at rest 0)
unfolding read_value
read_value-encode v rest h n = value-encode v (max_depth + 1) 0 rest h (omega arith) (omega arith)
