-- ===== src/Text/Strings.antt =====
-- The methods of Rust's `str` that the gateway calls, over the bytes of a text.
use ontological_db.Base.{
  ℕ, zero, suc, ◌+◌, Bool, true, false, ◌&&◌, ◌||◌, leb, ltb, ◌==◌, if◌then◌else◌,
}
use ontological_db.Base.{List, [], ◌∷◌, take, drop, length, list_eq, map}
use Prim.Native.Char.{code}
use Prim.Native.String.{String}

-- The bytes of an ASCII text.
abbrev pub codes : String → List ℕ
codes String.[] = []
codes (String.◌∷◌ c s) = code c ∷ codes s

unfoldable pub starts_with : List ℕ → List ℕ → Bool
starts_with [] s = true
starts_with (p ∷ ps) [] = false
starts_with (p ∷ ps) (b ∷ bs) = p == b && starts_with ps bs

unfoldable pub contains_text : List ℕ → List ℕ → Bool
unfolding starts_with
contains_text p [] = starts_with p []
contains_text p (b ∷ bs) = starts_with p (b ∷ bs) || contains_text p bs

-- `u8::to_ascii_lowercase`
abbrev pub to_lower : ℕ → ℕ
to_lower b = if leb 65 b && leb b 90 then b + 32 else b

unfoldable pub eq_ignore_ascii_case : List ℕ → List ℕ → Bool
eq_ignore_ascii_case s t = list_eq (map to_lower s) (map to_lower t)

-- `u8::is_ascii_whitespace`, which leaves out the vertical tab.
unfoldable pub is_ascii_whitespace : ℕ → Bool
is_ascii_whitespace b = b == 32 || b == 9 || b == 10 || b == 12 || b == 13

-- U+2000 to U+200A, U+2028, U+2029, U+202F and U+205F behind their first byte.
unfoldable pub in_block : List ℕ → Bool
in_block (a ∷ c ∷ bs) =
    (a == 0x80 && ((leb 0x80 c && leb c 0x8A) || c == 0xA8 || c == 0xA9 || c == 0xAF))
    || (a == 0x81 && c == 0x9F)
in_block _ = false

-- The length of the white space character that a text opens with, or 0.
unfoldable pub space : List ℕ → ℕ
unfolding in_block
space (b ∷ bs) =
    if (leb 9 b && leb b 13) || b == 32
    then 1
    else if b == 0xC2
    then (if list_eq (take 1 bs) (0x85 ∷ []) || list_eq (take 1 bs) (0xA0 ∷ []) then 2 else 0)
    else if b == 0xE1
    then (if list_eq (take 2 bs) (0x9A ∷ 0x80 ∷ []) then 3 else 0)
    else if b == 0xE2
    then (if in_block bs then 3 else 0)
    else if b == 0xE3
    then (if list_eq (take 2 bs) (0x80 ∷ 0x80 ∷ []) then 3 else 0)
    else 0
space [] = 0

-- `str::trim_start`; the fuel bounds the characters.
unfoldable pub trim : ℕ → List ℕ → List ℕ
unfolding space
trim zero s = s
trim (suc f) s = let rest = trim f (drop (space s) s) in if space s == 0 then s else rest

unfoldable pub trim_start : List ℕ → List ℕ
unfolding trim
trim_start s = trim (length s) s

-- A byte that does not begin a character.
unfoldable pub is_continuation : ℕ → Bool
is_continuation b = leb 0x80 b && ltb b 0xC0
