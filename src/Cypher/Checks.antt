-- ===== src/Cypher/Checks.antt =====
-- Runs of engine/src/cypher/lexer.rs, and its theorem at a concrete input.
use ontological_db.Base.{
  ◌≡◌, refl, Bool, true, false, ◌&&◌, ◌||◌, leb, List, [], ◌∷◌, ◌++◌, none, length, map, list_eq,
}
use ontological_db.Base.Outcome.{Result, ok, err}
use ontological_db.Text.Strings.{codes}
use ontological_db.Text.Utf8.{is_utf8, from_utf8_lossy}
use ontological_db.Cypher.Scan.{Text, Classes, LexError, is_digit, take_string}
use ontological_db.Cypher.Lexer.{ident, keyword, punct, eof, Tok, Token, tokenize}
use ontological_db.Cypher.Tokens.{Tokenized, tokenize_ends}

-- The letters of ASCII, and whatever takes more than a byte.
abbrev letters : Text → Bool
letters [] = false
letters (c ∷ []) = (leb 65 c && leb c 90) || (leb 97 c && leb c 122)
letters (c ∷ d ∷ s) = true

abbrev digits : Text → Bool
digits [] = false
digits (c ∷ s) = is_digit c

abbrev plain : Classes
plain = record { alphabetic = letters; numeric = digits; parse_f64 = λ t. none }

abbrev toks : Result LexError (List Token) → List Tok
toks (err e) = []
toks (ok ts) = map (λ t. t.tok) ts

-- MATCH (n:한) // all
abbrev query : Text
query = codes "MATCH (n:" ++ 0xED ∷ 0x95 ∷ 0x9C ∷ codes ") // all"

query_runs :
    toks (tokenize plain query)
    ≡ keyword (codes "match")
      ∷ punct (codes "(")
      ∷ ident (codes "n")
      ∷ punct (codes ":")
      ∷ ident (0xED ∷ 0x95 ∷ 0x9C ∷ [])
      ∷ punct (codes ")")
      ∷ eof
      ∷ []
unfolding tokenize list_eq is_utf8 from_utf8_lossy
query_runs = refl

-- `\한'`: the first byte of 한 becomes í, and the other two are replaced.
escaped_runs :
    take_string 0 39 [] (92 ∷ 0xED ∷ 0x95 ∷ 0x9C ∷ 39 ∷ [])
    ≡ ok (0xC3 ∷ 0xAD ∷ 0xEF ∷ 0xBF ∷ 0xBD ∷ 0xEF ∷ 0xBF ∷ 0xBD ∷ [], [])
unfolding take_string from_utf8_lossy
escaped_runs = refl

tokenize_ends_example : Tokenized 0 (length query) (tokenize plain query)
tokenize_ends_example = tokenize_ends plain query
