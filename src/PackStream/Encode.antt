-- ===== src/PackStream/Encode.antt =====
-- `encode` of bolt/src/packstream.rs. A function gives the bytes that the source appends to `out`.
use ontological_db.Base.{ℕ, ◌+◌, ◌%◌, ◌^◌, Bool, true, false, ◌&&◌, ltb, if◌then◌else◌}
use ontological_db.Base.{List, [], ◌∷◌, ◌++◌, length}
use ontological_db.Base.Int.{ℤ, pos, negsuc, leb_ℤ, wrap}
use ontological_db.PackStream.Value.{
  Value, Values, Entries, null, bool, int, float, string, list, dict, structure, nil, cons, end,
  entry, count, count_entries,
}
use ontological_db.PackStream.Words.{be2, be4, be8}
use Prim.Native.Nat.{bit_and, bit_or}

-- The range pattern `lo..=hi`.
abbrev pub within : ℤ → ℤ → ℤ → Bool
within lo hi i = leb_ℤ lo i && leb_ℤ i hi

unfoldable pub encode_int : ℤ → List ℕ
encode_int i =
    if within (negsuc 15) (pos 127) i
    then wrap 256 i ∷ []
    else if within (negsuc 127) (pos 127) i
    then 0xC8 ∷ wrap 256 i ∷ []
    else if within (negsuc 32767) (pos 32767) i
    then 0xC9 ∷ be2 (wrap (2 ^ 16) i)
    else if within (negsuc 2147483647) (pos 2147483647) i
    then 0xCA ∷ be4 (wrap (2 ^ 32) i)
    else 0xCB ∷ be8 (wrap (2 ^ 64) i)

-- Tiny marker for small sizes, then the 8, 16 and 32-bit forms.
unfoldable pub encode_header : ℕ → ℕ → ℕ → List ℕ
encode_header len tiny base =
    if ltb len 16
    then bit_or tiny (len % 256) ∷ []
    else if ltb len 256
    then base ∷ (len % 256) ∷ []
    else if ltb len 65536
    then (base + 1) ∷ be2 (len % 2 ^ 16)
    else (base + 2) ∷ be4 (len % 2 ^ 32)

unfoldable pub encode_string : List ℕ → List ℕ
encode_string s = encode_header (length s) 0x80 0xD0 ++ s

unfoldable mutual
  pub encode : Value → List ℕ
  encode null = 0xC0 ∷ []
  encode (bool false) = 0xC2 ∷ []
  encode (bool true) = 0xC3 ∷ []
  encode (float x) = 0xC1 ∷ be8 x
  encode (int i) = encode_int i
  encode (string s) = encode_string s
  encode (list xs) = encode_header (count xs) 0x90 0xD4 ++ encode_values xs
  encode (dict m) = encode_header (count_entries m) 0xA0 0xD8 ++ encode_entries m
  encode (structure sig fs) = bit_or 0xB0 (bit_and (count fs % 256) 0x0F) ∷ sig ∷ encode_values fs

  pub encode_values : Values → List ℕ
  encode_values nil = []
  encode_values (cons v vs) = encode v ++ encode_values vs

  pub encode_entries : Entries → List ℕ
  encode_entries end = []
  encode_entries (entry k v es) = encode_string k ++ (encode v ++ encode_entries es)
