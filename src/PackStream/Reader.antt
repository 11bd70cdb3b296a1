-- ===== src/PackStream/Reader.antt =====
-- The `Reader` of bolt/src/packstream.rs. Its `buf` and `pos` are one list, the bytes from `pos` on.
-- `value` and the containers call one another, so `value` takes fuel; `out_of_fuel` is no error of the
-- source. What a failed call leaves in the reader is not kept, since every caller passes the error on.
use ontological_db.Base.{ℕ, zero, suc, ◌+◌, ◌-◌, ◌/◌, ◌^◌, min, max, Bool, true, false, ◌&&◌}
use ontological_db.Base.{leb, ltb, ◌==◌, if◌then◌else◌, List, [], ◌∷◌, length, take, drop}
use ontological_db.Base.Int.{pos, signed}
use ontological_db.Base.Outcome.{Result, ok, err, ◌>>=◌}
use ontological_db.Text.Utf8.{from_utf8_lossy}
use ontological_db.PackStream.Value.{
  Value, Values, Entries, null, bool, int, float, string, list, dict, structure, nil, cons, end,
  insert,
}
use ontological_db.PackStream.Words.{of_be}
use Prim.Native.Nat.{bit_and}

-- How deeply a value may nest.
abbrev pub max_depth : ℕ
max_depth = 64

pub record Reader : Type 0 where
  pub rest : List ℕ
  pub depth : ℕ

pub data ReadError : Type 0 where
  short_read nesting_too_deep out_of_fuel : ReadError
  unknown_marker : ℕ → ReadError
  bad_key : Value → ReadError

-- A call that takes an `A` off the reader.
abbrev pub Read : Type 0 → Type 0
Read A = Reader → Result ReadError (A × Reader)

abbrev pub new : List ℕ → Reader
new buf = record { rest = buf; depth = 0 }

unfoldable pub enter : Reader → Result ReadError Reader
enter r =
    if ltb max_depth (r.depth + 1)
    then err nesting_too_deep
    else ok (record r { depth = r.depth + 1 })

abbrev pub leave : Reader → Reader
leave r = record r { depth = r.depth - 1 }

-- How many members it is worth reserving room for.
unfoldable pub reserve : Reader → ℕ → ℕ → ℕ
reserve r n bytes_each = min n (length r.rest / max bytes_each 1)

unfoldable pub byte_of : List ℕ → ℕ → Result ReadError (ℕ × Reader)
byte_of [] d = err short_read
byte_of (b ∷ bs) d = ok (b, record { rest = bs; depth = d })

unfoldable pub byte : Read ℕ
unfolding byte_of
byte r = byte_of r.rest r.depth

unfoldable pub bytes : ℕ → Read (List ℕ)
bytes n r =
    if ltb (length r.rest) n
    then err short_read
    else ok (take n r.rest, record r { rest = drop n r.rest })

-- The size behind a marker: one, two or four bytes.
unfoldable pub size : ℕ → ℕ → Read ℕ
size marker base r =
    if marker - base == 0
    then byte r
    else if marker - base == 1
    then (do (b, r') ← bytes 2 r; ok (of_be 0 b, r'))
    else (do (b, r') ← bytes 4 r; ok (of_be 0 b, r'))

unfoldable pub read_string : ℕ → Read Value
read_string n r = do (b, r') ← bytes n r; ok (string (from_utf8_lossy b), r')

-- The loop `for _ in 0..n { xs.push(self.value()?) }`.
unfoldable pub members : Read Value → ℕ → Read Values
members value zero r = ok (nil, r)
members value (suc n) r = do (x, r1) ← value r; (xs, r2) ← members value n r1; ok (cons x xs, r2)

unfoldable pub read_list : Read Value → ℕ → Read Value
read_list value n r = do r1 ← enter r; (xs, r2) ← members value n r1; ok (list xs, leave r2)

unfoldable pub as_key : Value → Result ReadError (List ℕ)
as_key (string s) = ok s
as_key other = err (bad_key other)

-- The loop of `dict` over the map `m`.
unfoldable pub pairs : Read Value → ℕ → Entries → Read Entries
pairs value zero m r = ok (m, r)
pairs value (suc n) m r = do
  (key, r1) ← value r
  k ← as_key key
  (v, r2) ← value r1
  pairs value n (insert k v m) r2

unfoldable pub read_dict : Read Value → ℕ → Read Value
read_dict value n r = do r1 ← enter r; (m, r2) ← pairs value n end r1; ok (dict m, leave r2)

unfoldable pub read_structure : Read Value → ℕ → Read Value
read_structure value n r = do
  r1 ← enter r
  (sig, r2) ← byte r1
  (fields, r3) ← members value n r2
  ok (structure sig fields, leave r3)

unfoldable pub read_float : Read Value
read_float r = do (b, r') ← bytes 8 r; ok (float (of_be 0 b), r')

-- An integer of `width` bytes whose sign bit counts `half`.
unfoldable pub read_int : ℕ → ℕ → Read Value
read_int width half r = do (b, r') ← bytes width r; ok (int (signed half (of_be 0 b)), r')

unfoldable pub read_int8 : Read Value
read_int8 r = do (b, r') ← byte r; ok (int (signed 128 b), r')

unfoldable pub sized : (ℕ → Read Value) → ℕ → ℕ → Read Value
sized read m base r = do (n, r') ← size m base r; read n r'

-- `lo..=hi`
abbrev pub between : ℕ → ℕ → ℕ → Bool
between lo hi m = leb lo m && leb m hi

-- The `match m` of `value`, with `value` itself for the members.
unfoldable pub dispatch : Read Value → ℕ → Read Value
dispatch value m r =
    if m == 0xC0
    then ok (null, r)
    else if m == 0xC2
    then ok (bool false, r)
    else if m == 0xC3
    then ok (bool true, r)
    else if m == 0xC1
    then read_float r
    else if m == 0xC8
    then read_int8 r
    else if m == 0xC9
    then read_int 2 (2 ^ 15) r
    else if m == 0xCA
    then read_int 4 (2 ^ 31) r
    else if m == 0xCB
    then read_int 8 (2 ^ 63) r
    else if between 0x00 0x7F m
    then ok (int (pos m), r)
    else if between 0xF0 0xFF m
    then ok (int (signed 128 m), r)
    else if between 0x80 0x8F m
    then read_string (bit_and m 0x0F) r
    else if between 0xD0 0xD2 m
    then sized read_string m 0xD0 r
    else if between 0x90 0x9F m
    then read_list value (bit_and m 0x0F) r
    else if between 0xD4 0xD6 m
    then sized (read_list value) m 0xD4 r
    else if between 0xA0 0xAF m
    then read_dict value (bit_and m 0x0F) r
    else if between 0xD8 0xDA m
    then sized (read_dict value) m 0xD8 r
    else if between 0xB0 0xBF m
    then read_structure value (bit_and m 0x0F) r
    else err (unknown_marker m)

unfoldable pub value : ℕ → Read Value
value zero r = err out_of_fuel
value (suc fuel) r = do (m, r') ← byte r; dispatch (value fuel) m r'

-- A value at depth `d` opens at most `max_depth - d` containers before `enter` refuses one more.
unfoldable pub read_value : List ℕ → Result ReadError (Value × Reader)
read_value buf = value (max_depth + 1) (new buf)
