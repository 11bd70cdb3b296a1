-- ===== src/Cypher/Lexer.antt =====
-- `tokenize` of engine/src/cypher/lexer.rs.
use ontological_db.Base.{
  ℕ, zero, suc, ◌+◌, ◌-◌, ◌^◌, Bool, true, false, ◌||◌, ◌==◌, ltb, if◌then◌else◌, List, [], ◌∷◌,
  none, some, list_eq, take, drop, length, map,
}
use ontological_db.Base.Outcome.{Result, ok, err}
use ontological_db.Text.Strings.{codes, to_lower}
use ontological_db.Cypher.Scan.{
  Text, Classes, LexError, no_parameter_name, unterminated_identifier, out_of_fuel, bad_number,
  unexpected, gap, skip_trivia, is_digit, at_word_start, take_word, digits_value, take_until,
  take_string, number, punct_length,
}

pub data Tok : Type 0 where
  ident quoted_ident keyword str param punct : Text → Tok
  int float : ℕ → Tok
  eof : Tok

pub record Token : Type 0 where
  pub tok : Tok
  pub pos : ℕ
  pub raw : Text

abbrev pub keywords : List Text
keywords =
    codes "match"
    ∷ codes "optional"
    ∷ codes "where"
    ∷ codes "return"
    ∷ codes "with"
    ∷ codes "create"
    ∷ codes "merge"
    ∷ codes "set"
    ∷ codes "remove"
    ∷ codes "delete"
    ∷ codes "detach"
    ∷ codes "order"
    ∷ codes "by"
    ∷ codes "skip"
    ∷ codes "limit"
    ∷ codes "distinct"
    ∷ codes "as"
    ∷ codes "and"
    ∷ codes "or"
    ∷ codes "not"
    ∷ codes "xor"
    ∷ codes "in"
    ∷ codes "is"
    ∷ codes "null"
    ∷ codes "true"
    ∷ codes "false"
    ∷ codes "unwind"
    ∷ codes "union"
    ∷ codes "all"
    ∷ codes "asc"
    ∷ codes "desc"
    ∷ codes "starts"
    ∷ codes "ends"
    ∷ codes "contains"
    ∷ codes "case"
    ∷ codes "when"
    ∷ codes "then"
    ∷ codes "else"
    ∷ codes "end"
    ∷ codes "exists"
    ∷ codes "count"
    ∷ codes "on"
    ∷ codes "call"
    ∷ codes "yield"
    ∷ codes "drop"
    ∷ []

unfoldable pub has_text : Text → List Text → Bool
has_text t [] = false
has_text t (k ∷ ks) = list_eq t k || has_text t ks

-- A token, the spelling of a word, and what is left of the text.
pub record Lexed : Type 0 where
  pub tok : Tok
  pub raw : Text
  pub rest : List ℕ

abbrev pub Lex : Type 0
Lex = Result LexError Lexed

module _ (classes : Classes) where
  open classes use {parse_f64}

  -- `parse::<i64>` refuses what does not fit.
  unfoldable pub number_token : Bool → Text → Result LexError Tok
  unfolding digits_value
  number_token true text = elim (parse_f64 text) [
    | none ↦ err (bad_number text)
    | some x ↦ ok (float x)
  ]
  number_token false text =
      let n = digits_value classes 0 text in
      if ltb n (2 ^ 63) then ok (int n) else err (bad_number text)

  unfoldable pub lex_number : List ℕ → Lex
  unfolding number number_token
  lex_number s =
      let ((is_float, text), rest) = number false 0 [] s in
      elim (number_token is_float text) [
        | err e ↦ err e
        | ok t ↦ ok (record { tok = t; raw = []; rest = rest })
      ]

  unfoldable pub lex_word : List ℕ → Lex
  unfolding take_word has_text
  lex_word s =
      let (w, rest) = take_word classes s in
      let lower = map to_lower w in
      ok (record {
        tok = if has_text lower keywords then keyword lower else ident w;
        raw = w;
        rest = rest;
      })

  unfoldable pub lex_param : ℕ → List ℕ → Lex
  unfolding take_word
  lex_param start s =
      let (name, rest) = take_word classes s in
      elim name [
        | [] ↦ err (no_parameter_name start)
        | c ∷ cs ↦ ok (record { tok = param (c ∷ cs); raw = []; rest = rest })
      ]

  unfoldable pub lex_quoted : ℕ → List ℕ → Lex
  unfolding take_until
  lex_quoted start s = elim (take_until 96 [] s) [
    | none ↦ err (unterminated_identifier (start + 1))
    | some (name, rest) ↦ ok (record { tok = quoted_ident name; raw = []; rest = rest })
  ]

  unfoldable pub lex_string : ℕ → List ℕ → Lex
  unfolding take_string
  lex_string quote s = elim (take_string 0 quote [] s) [
    | err e ↦ err e
    | ok (text, rest) ↦ ok (record { tok = str text; raw = []; rest = rest })
  ]

  unfoldable pub lex_punct : ℕ → ℕ → List ℕ → Lex
  unfolding punct_length
  lex_punct start c s = elim (punct_length (c ∷ s)) [
    | zero ↦ err (unexpected c start)
    | suc n ↦
        ok (record { tok = punct (take (suc n) (c ∷ s)); raw = []; rest = drop (suc n) (c ∷ s) })
  ]

  -- The token that begins with `c`, at an offset.
  unfoldable pub lex_token : ℕ → ℕ → List ℕ → Lex
  unfolding at_word_start lex_number lex_word lex_param lex_quoted lex_string lex_punct
  lex_token start c s =
      if c == 96
      then lex_quoted start s
      else if c == 39 || c == 34
      then lex_string c s
      else if c == 36
      then lex_param start s
      else if is_digit c
      then lex_number (c ∷ s)
      else if at_word_start classes (c ∷ s)
      then lex_word (c ∷ s)
      else lex_punct start c s

  -- `size` is the length of the whole text.
  unfoldable pub tokens : ℕ → ℕ → List ℕ → Result LexError (List Token)
  unfolding skip_trivia lex_token
  tokens zero size s = err out_of_fuel
  tokens (suc f) size s = elim (skip_trivia gap s) [
    | [] ↦ ok (record { tok = eof; pos = size; raw = [] } ∷ [])
    | c ∷ rest ↦
        let start = size - length (c ∷ rest) in
        elim (lex_token start c rest) [
          | err e ↦ err e
          | ok l ↦ elim (tokens f size l.rest) [
            | err e ↦ err e
            | ok more ↦ ok (record { tok = l.tok; pos = start; raw = l.raw } ∷ more)
          ]
        ]
  ]

  unfoldable pub tokenize : List ℕ → Result LexError (List Token)
  unfolding tokens
  tokenize text = tokens (length text + 1) (length text) text
