-- ===== src/Cypher/Scan.antt =====
-- The scanners of engine/src/cypher/lexer.rs: each reads from the rest of the text and gives what it
-- leaves. What the source slices out of a text is decoded as UTF-8 again.
use ontological_db.Base.{
  ℕ, zero, suc, ◌+◌, ◌-◌, ◌*◌, ◌/◌, ◌%◌, Bool, true, false, not, ◌&&◌, ◌||◌, ◌==◌, leb, ltb,
  if◌then◌else◌, List, [], ◌∷◌, ◌++◌, Option, none, some, list_eq, take, drop, length, get_or,
}
use ontological_db.Base.Outcome.{Result, ok, err}
use ontological_db.Text.Utf8.{is_utf8, from_utf8_lossy}
use ontological_db.Text.Strings.{codes, starts_with, is_ascii_whitespace}

abbrev pub Text : Type 0
Text = List ℕ

-- What the standard library knows of characters and of decimal fractions.
pub record Classes : Type 0 where
  pub alphabetic : Text → Bool
  pub numeric : Text → Bool
  pub parse_f64 : Text → Option ℕ

pub data LexError : Type 0 where
  no_parameter_name unterminated_identifier : ℕ → LexError
  unterminated_string out_of_fuel : LexError
  bad_number : Text → LexError
  unexpected : ℕ → ℕ → LexError

-- Where `skip_trivia` stands: between tokens, in a comment to the end of the line, behind the first
-- character of `/*`, in such a comment, and behind the first character of `*/`.
pub data Trivia : Type 0 where
  gap line opening block closing : Trivia

-- The mode behind a character, if it is trivia; `s` is what follows it.
unfoldable pub trivia_step : Trivia → ℕ → List ℕ → Option Trivia
unfolding is_ascii_whitespace
trivia_step gap c s =
    if is_ascii_whitespace c
    then some gap
    else if c == 47 && get_or s 0 0 == 47
    then some line
    else if c == 47 && get_or s 0 0 == 42
    then some opening
    else none
trivia_step line c s = if c == 10 then some gap else some line
trivia_step opening c s = some block
trivia_step block c s = if c == 42 && get_or s 0 0 == 47 then some closing else some block
trivia_step closing c s = some gap

unfoldable pub skip_trivia : Trivia → List ℕ → List ℕ
unfolding trivia_step
skip_trivia mode [] = []
skip_trivia mode (c ∷ s) = elim (trivia_step mode c s) [ none ↦ c ∷ s | some m ↦ skip_trivia m s ]

abbrev pub is_digit : ℕ → Bool
is_digit c = leb 48 c && leb c 57

-- How many bytes a character takes that begins with this one.
abbrev pub char_length : ℕ → ℕ
char_length b = if ltb b 0x80 then 1 else if ltb b 0xE0 then 2 else if ltb b 0xF0 then 3 else 4

-- The next character, as its bytes.
unfoldable pub peek_char : List ℕ → Option Text
peek_char [] = none
peek_char (b ∷ s) = if is_utf8 (b ∷ s) then some (take (char_length b) (b ∷ s)) else none

-- `utf8_len`
unfoldable pub utf8_len : ℕ → ℕ
utf8_len b = if leb 0xF0 b then 4 else if leb 0xE0 b then 3 else if leb 0xC0 b then 2 else 1

module _ (classes : Classes) where
  open classes use {alphabetic, numeric, parse_f64}

  abbrev pub starts_word : Text → Bool
  starts_word c = alphabetic c || list_eq c (95 ∷ [])

  abbrev pub in_word : Text → Bool
  in_word c = (alphabetic c || numeric c) || list_eq c (95 ∷ [])

  unfoldable pub at_word_start : List ℕ → Bool
  unfolding peek_char
  at_word_start s = elim (peek_char s) [ none ↦ false | some c ↦ starts_word c ]

  unfoldable pub word : ℕ → List ℕ → Text × List ℕ
  unfolding peek_char
  word zero s = ([], s)
  word (suc f) s = elim (peek_char s) [
    | none ↦ ([], s)
    | some c ↦
        let (w, rest) = word f (drop (length c) s) in if in_word c then (c ++ w, rest) else ([], s)
  ]

  unfoldable pub take_word : List ℕ → Text × List ℕ
  unfolding word
  take_word s = let (w, rest) = word (length s) s in (from_utf8_lossy w, rest)

  -- `text.parse::<i64>()` on digits
  unfoldable pub digits_value : ℕ → Text → ℕ
  digits_value n [] = n
  digits_value n (d ∷ ds) = digits_value (n * 10 + (d - 48)) ds

unfoldable pub take_until : ℕ → Text → List ℕ → Option (Text × List ℕ)
take_until end taken [] = none
take_until end taken (c ∷ s) =
    let rest = take_until end (taken ++ c ∷ []) s in
    if c == end then some (from_utf8_lossy taken, s) else rest

-- `b as char`: the code point is the byte.
abbrev pub as_char : ℕ → Text
as_char b = if ltb b 0x80 then b ∷ [] else (0xC0 + b / 64) ∷ (0x80 + b % 64) ∷ []

unfoldable pub escaped : List ℕ → Text
escaped [] = []
escaped (c ∷ s) =
    if c == 110
    then 10 ∷ []
    else if c == 116
    then 9 ∷ []
    else if c == 114
    then 13 ∷ []
    else if c == 48
    then 0 ∷ []
    else as_char c

pub data StringStep : Type 0 where
  finish : StringStep
  push : Text → ℕ → StringStep

-- What a byte of a string adds, and how many bytes behind it are used up.
unfoldable pub string_step : ℕ → ℕ → List ℕ → StringStep
unfolding escaped utf8_len
string_step quote c s =
    if c == 92
    then push (escaped s) 1
    else if c == quote
    then finish
    else if ltb c 0x80
    then push (c ∷ []) 0
    else push (from_utf8_lossy (take (utf8_len c) (c ∷ s))) (utf8_len c - 1)

unfoldable pub take_string : ℕ → ℕ → Text → List ℕ → Result LexError (Text × List ℕ)
unfolding string_step
take_string skip quote text [] = err unterminated_string
take_string (suc k) quote text (c ∷ s) = take_string k quote text s
take_string zero quote text (c ∷ s) = elim (string_step quote c s) [
  | finish ↦ ok (text, s)
  | push more k ↦ take_string k quote (text ++ more) s
]

-- Whether the number goes on with this byte: is it a fraction then, and is a sign used up?
unfoldable pub number_step : Bool → ℕ → List ℕ → Option (Bool × ℕ)
number_step is_float c s =
    if is_digit c
    then some (is_float, 0)
    else if c == 46 && not is_float && is_digit (get_or s 0 0)
    then some (true, 0)
    else if c == 101 || c == 69
    then some (true, if get_or s 0 0 == 43 || get_or s 0 0 == 45 then 1 else 0)
    else none

-- The digits begin at a digit, so an exponent never stands first.
unfoldable pub number : Bool → ℕ → Text → List ℕ → (Bool × Text) × List ℕ
unfolding number_step
number is_float skip text [] = ((is_float, text), [])
number is_float (suc k) text (c ∷ s) = number is_float k (text ++ c ∷ []) s
number is_float zero text (c ∷ s) = elim (number_step is_float c s) [
  | none ↦ ((is_float, text), c ∷ s)
  | some (float', k) ↦ number float' k (text ++ c ∷ []) s
]

abbrev pub two_chars : List Text
two_chars =
    codes "<="
    ∷ codes ">="
    ∷ codes "<>"
    ∷ codes "!="
    ∷ codes "->"
    ∷ codes "<-"
    ∷ codes ".."
    ∷ codes "=~"
    ∷ codes "+="
    ∷ codes "||"
    ∷ []

unfoldable pub opens : List Text → List ℕ → Bool
unfolding starts_with
opens [] s = false
opens (p ∷ ps) s = starts_with p s || opens ps s

unfoldable pub has_byte : ℕ → Text → Bool
has_byte c [] = false
has_byte c (b ∷ bs) = c == b || has_byte c bs

-- How long the punctuation is that the text opens with, or 0.
unfoldable pub punct_length : List ℕ → ℕ
unfolding opens has_byte
punct_length s =
    if opens (codes "<->" ∷ []) s
    then 3
    else if opens two_chars s
    then 2
    else if has_byte (get_or s 0 0) (codes "()[]{}<>=+-*/%^.,:;|")
    then 1
    else 0
