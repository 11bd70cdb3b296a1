-- ===== src/Sql/Syntax.antt =====
-- The documented syntax of quoted texts in SQL, to which engine/src/spiu.rs quotes: what a text that
-- opens with a quote stands for, and what follows it. The cut of names to 63 bytes and the refusal of
-- an empty name come after this reading.
use ontological_db.Base.{
  ℕ, zero, suc, Bool, true, false, not, ◌&&◌, ◌||◌, ◌==◌, if◌then◌else◌, List, [], ◌∷◌, ◌++◌,
  Option, some, none, length,
}
use ontological_db.Sql.{quote, double_quote, backslash}

pub data Mode : Type 0 where
  inside after_quote after_backslash : Mode

unfoldable pub push : ℕ → Option (List ℕ × List ℕ) → Option (List ℕ × List ℕ)
push c none = none
push c (some (s, rest)) = some (c ∷ s, rest)

-- A doubled quote stands for itself, a single one ends the text. With escapes a doubled backslash
-- stands for one; the other escapes are not read.
unfoldable pub body : Bool → ℕ → Mode → List ℕ → Option (List ℕ × List ℕ)
unfolding push
body escapes q inside [] = none
body escapes q inside (x ∷ xs) =
    let close = body escapes q after_quote xs in
    let escape = body escapes q after_backslash xs in
    let more = body escapes q inside xs in
    if x == q then close else if escapes && x == backslash then escape else push x more
body escapes q after_quote [] = some ([], [])
body escapes q after_quote (x ∷ xs) =
    let more = body escapes q inside xs in if x == q then push q more else some ([], x ∷ xs)
body escapes q after_backslash [] = none
body escapes q after_backslash (x ∷ xs) =
    let more = body escapes q inside xs in if x == backslash then push x more else none

-- The text opens with the character.
unfoldable pub starts : ℕ → List ℕ → Bool
starts c [] = false
starts c (x ∷ xs) = x == c

abbrev pub is_newline : ℕ → Bool
is_newline x = x == 10 || x == 13

abbrev pub is_blank : ℕ → Bool
is_blank x = x == 32 || x == 9 || x == 11 || x == 12

-- Behind a constant, white space with a newline and then a quote: what stands behind that quote goes
-- on with the constant. A comment from `--` to the end of its line is white space. The flags tell
-- whether a newline has been passed, and whether a comment is open.
unfoldable pub resume : Bool → Bool → List ℕ → Option (List ℕ)
unfolding starts
resume passed comment [] = none
resume passed true (x ∷ xs) =
    let line = resume true false xs in
    let more = resume passed true xs in if is_newline x then line else more
resume passed false (x ∷ xs) =
    let line = resume true false xs in
    let more = resume passed false xs in
    let open_comment = resume passed true xs in
    if x == quote
    then (if passed then some xs else none)
    else if is_newline x
    then line
    else if is_blank x
    then more
    else if x == 45 && starts 45 xs
    then open_comment
    else none

unfoldable pub joined : List ℕ → Option (List ℕ × List ℕ) → Option (List ℕ × List ℕ)
joined s none = none
joined s (some (t, rest)) = some (s ++ t, rest)

-- A constant behind its first quote, with all that joins it. Each round takes a quote.
unfoldable pub constant : ℕ → Bool → List ℕ → Option (List ℕ × List ℕ)
unfolding body resume joined
constant zero escapes xs = none
constant (suc f) escapes xs = elim (body escapes quote inside xs) [
  | none ↦ none
  | some (s, rest) ↦ elim (resume false false rest) [
    | none ↦ some (s, rest)
    | some more ↦ joined s (constant f escapes more)
  ]
]

unfoldable pub escape_form : List ℕ → Option (List ℕ × List ℕ)
unfolding constant
escape_form (e ∷ c ∷ xs) =
    if e == 69 && c == quote then constant (suc (length xs)) true xs else none
escape_form _ = none

-- A literal, under either value of `standard_conforming_strings`; the form `E'…'` may stand behind a
-- space.
unfoldable pub literal : Bool → List ℕ → Option (List ℕ × List ℕ)
unfolding constant escape_form
literal conforming [] = none
literal conforming (c ∷ xs) =
    if c == quote
    then constant (suc (length xs)) (not conforming) xs
    else if c == 32
    then escape_form xs
    else none

-- A quoted identifier.
unfoldable pub name : List ℕ → Option (List ℕ × List ℕ)
unfolding body
name [] = none
name (c ∷ xs) = if c == double_quote then body false double_quote inside xs else none
