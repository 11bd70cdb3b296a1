-- ===== src/Cypher/Progress.antt =====
-- `tokenize` of engine/src/cypher/lexer.rs comes to an end: every token takes a byte at least.
use ontological_db.Base.{
  ℕ, zero, suc, ◌≡◌, ◌≤◌, refl, sym, Bool, true, false, Bool-cases, Option-cases, inl, inr, ◌||◌,
  ◌==◌, ltb, ◌^◌, if◌then◌else◌, List, [], ◌∷◌, ◌++◌, some, take, drop, length, length-drop,
  length-take, arith,
}
use ontological_db.Base.Outcome.{Result, ok, err}
use ontological_db.Text.Utf8.{is_utf8}
use ontological_db.Cypher.Scan.{
  Text, Classes, LexError, no_parameter_name, unterminated_identifier, unterminated_string,
  out_of_fuel, bad_number, unexpected, Trivia, trivia_step, skip_trivia, is_digit, char_length,
  peek_char, starts_word, in_word, at_word_start, word, take_word, take_until, finish, push,
  string_step, take_string, number_step, number, punct_length, digits_value,
}
use ontological_db.Cypher.Lexer.{
  param, str, punct, Tok, Lex, number_token, lex_number, lex_word, lex_param, lex_quoted,
  lex_string, lex_punct, lex_token,
}

pub skip_trivia_le : (m : Trivia) (s : List ℕ) → length (skip_trivia m s) ≤ length s
unfolding skip_trivia
skip_trivia_le m [] = omega arith
skip_trivia_le m (c ∷ s) = elim (Option-cases (trivia_step m c s)) [
  | inl e ↦ rw (skip_trivia, e) (omega arith)
  | inr (m', e) ↦ rw (skip_trivia, e) (let again = skip_trivia_le m' s in omega arith)
]

-- An error of the source.
abbrev pub Proper : LexError → Type 0
Proper out_of_fuel = ⊥
Proper unterminated_string = Unit
Proper (no_parameter_name n) = Unit
Proper (unterminated_identifier n) = Unit
Proper (bad_number t) = Unit
Proper (unexpected c n) = Unit

-- What is left is no longer than this.
abbrev pub Leaves : ℕ → Lex → Type 0
Leaves n (err e) = Proper e
Leaves n (ok l) = length l.rest ≤ n

module _ (classes : Classes) where
  word_le : (f : ℕ) (s : List ℕ) → length (word classes f s).1 ≤ length s
  unfolding word
  word_le zero s = omega arith
  word_le (suc f) s = elim (Option-cases (peek_char s)) [
    | inl e ↦ rw (word, e) (omega arith)
    | inr (c, e) ↦
        let again = word_le f (drop (length c) s) in
        let cut = length-drop (length c) s in
        elim (Bool-cases (in_word classes c)) [
          | inl i ↦ rw (word, e, i) (omega arith)
          | inr i ↦ rw (word, e, i) (omega arith)
        ]
  ]

  length-peek_char : (b : ℕ) (s c : List ℕ) → peek_char (b ∷ s) ≡ some c → 1 ≤ length c
  unfolding peek_char
  length-peek_char b s c h = elim (Bool-cases (is_utf8 (b ∷ s))) [
    | inr e ↦ absurd (cc (rw e at h))
    | inl e ↦
        let q : take (char_length b) (b ∷ s) ≡ c = cc (rw e at h) in
        let l = length-take (char_length b) (b ∷ s) in rw (sym q) (ground (arith, l))
  ]

  starts-in_word : (c : Text) → starts_word classes c ≡ true → in_word classes c ≡ true
  starts-in_word c h = ground arith

  word_lt :
      (f b : ℕ) (s : List ℕ)
      → at_word_start classes (b ∷ s) ≡ true
      → length (word classes (suc f) (b ∷ s)).1 ≤ length s
  unfolding word at_word_start
  word_lt f b s h = elim (Option-cases (peek_char (b ∷ s))) [
    | inl e ↦ absurd (cc (rw (at_word_start, e) at h))
    | inr (c, e) ↦
        let starts : starts_word classes c ≡ true = rw (at_word_start, e) at h in
        let again = word_le f (drop (length c) (b ∷ s)) in
        let cut = length-drop (length c) (b ∷ s) in
        let some_byte = length-peek_char b s c e in
        rw (word, e, starts-in_word c starts) (omega arith)
  ]

  lex_word-Leaves :
      (c : ℕ) (s : List ℕ)
      → at_word_start classes (c ∷ s) ≡ true
      → Leaves (length s) (lex_word classes (c ∷ s))
  unfolding lex_word take_word
  lex_word-Leaves c s h = word_lt (length s) c s h

  lex_param-Leaves : (start : ℕ) (s : List ℕ) → Leaves (length s) (lex_param classes start s)
  unfolding lex_param take_word
  lex_param-Leaves start s = named (take_word classes s) (word_le (length s) s)
    where
      named :
          (x : Text × List ℕ)
          → length x.1 ≤ length s
          → Leaves (length s) (
              let (name, rest) = x in
              elim name [
                | [] ↦ err (no_parameter_name start)
                | c ∷ cs ↦ ok (record { tok = param (c ∷ cs); raw = []; rest = rest })
              ])
      named ([], rest) h = tt
      named (c ∷ cs, rest) h = h

  take_until_le :
      (end : ℕ) (taken s : List ℕ) (t : Text) (rest : List ℕ)
      → take_until end taken s ≡ some (t, rest)
      → length rest ≤ length s
  unfolding take_until
  take_until_le end taken [] t rest h = absurd (cc h)
  take_until_le end taken (c ∷ s) t rest h = elim (Bool-cases (c == end)) [
    | inl e ↦ let q : s ≡ rest = cc (rw (take_until, e) at h) in rw (sym q) (omega arith)
    | inr e ↦
        let again = take_until_le end (taken ++ c ∷ []) s t rest (rw (take_until, e) at h) in
        omega arith
  ]

  lex_quoted-Leaves : (start : ℕ) (s : List ℕ) → Leaves (length s) (lex_quoted classes start s)
  unfolding lex_quoted
  lex_quoted-Leaves start s = elim (Option-cases (take_until 96 [] s)) [
    | inl e ↦ rw (lex_quoted, e) tt
    | inr ((t, rest), e) ↦ rw (lex_quoted, e) (take_until_le 96 [] s t rest e)
  ]

  abbrev StringLeaves : ℕ → Result LexError (Text × List ℕ) → Type 0
  StringLeaves n (err e) = Proper e
  StringLeaves n (ok x) = length x.1 ≤ n

  StringLeaves-longer :
      (n : ℕ) (r : Result LexError (Text × List ℕ)) → StringLeaves n r → StringLeaves (suc n) r
  StringLeaves-longer n (err e) h = h
  StringLeaves-longer n (ok x) h = omega arith

  take_string_leaves :
      (k quote : ℕ) (text s : List ℕ) → StringLeaves (length s) (take_string k quote text s)
  unfolding take_string
  take_string_leaves k quote text [] = tt
  take_string_leaves (suc k) quote text (c ∷ s) =
      StringLeaves-longer (length s) (take_string k quote text s)
        (take_string_leaves k quote text s)
  take_string_leaves zero quote text (c ∷ s) =
      elim (string_step quote c s)
        as (λ x.
          StringLeaves (suc (length s)) (elim x [
            | finish ↦ ok (text, s)
            | push more k ↦ take_string k quote (text ++ more) s
          ])) [
            | finish ↦ (let h : length s ≤ suc (length s) = omega arith in h)
            | push more k ↦
                StringLeaves-longer (length s) (take_string k quote (text ++ more) s)
                  (take_string_leaves k quote (text ++ more) s)
          ]

  lex_string-Leaves : (quote : ℕ) (s : List ℕ) → Leaves (length s) (lex_string classes quote s)
  unfolding lex_string
  lex_string-Leaves quote s = read (take_string 0 quote [] s) (take_string_leaves 0 quote [] s)
    where
      read :
          (r : Result LexError (Text × List ℕ))
          → StringLeaves (length s) r
          → Leaves (length s) (elim r [
            | err e ↦ err e
            | ok (text, rest) ↦ ok (record { tok = str text; raw = []; rest = rest })
          ])
      read (err e) h = h
      read (ok (text, rest)) h = h

  number_le :
      (is_float : Bool) (k : ℕ) (text s : List ℕ) → length (number is_float k text s).1 ≤ length s
  unfolding number
  number_le is_float k text [] = omega arith
  number_le is_float (suc k) text (c ∷ s) =
      let again = number_le is_float k (text ++ c ∷ []) s in omega arith
  number_le is_float zero text (c ∷ s) = elim (Option-cases (number_step is_float c s)) [
    | inl e ↦ rw (number, e) (omega arith)
    | inr ((float', k), e) ↦
        rw (number, e) (let again = number_le float' k (text ++ c ∷ []) s in omega arith)
  ]

  number_lt :
      (c : ℕ) (s : List ℕ) → is_digit c ≡ true → length (number false 0 [] (c ∷ s)).1 ≤ length s
  unfolding number number_step
  number_lt c s h = rw (number, number_step, h) (number_le false 0 (c ∷ []) s)

  abbrev TokenProper : Result LexError Tok → Type 0
  TokenProper (err e) = Proper e
  TokenProper (ok t) = Unit

  number_token_proper :
      (is_float : Bool) (text : Text) → TokenProper (number_token classes is_float text)
  unfolding number_token
  number_token_proper true text = elim (Option-cases (classes.parse_f64 text)) [
    | inl e ↦ rw (number_token, e) tt
    | inr (x, e) ↦ rw (number_token, e) tt
  ]
  number_token_proper false text = elim (Bool-cases (ltb (digits_value classes 0 text) (2 ^ 63))) [
    | inl e ↦ rw (number_token, e) tt
    | inr e ↦ rw (number_token, e) tt
  ]

  lex_number-Leaves :
      (c : ℕ) (s : List ℕ) → is_digit c ≡ true → Leaves (length s) (lex_number classes (c ∷ s))
  unfolding lex_number
  lex_number-Leaves c s h =
      let x = number false 0 [] (c ∷ s) in
      read (number_token classes x.0.0 x.0.1) (number_token_proper x.0.0 x.0.1)
    where
      read :
          (r : Result LexError Tok)
          → TokenProper r
          → Leaves (length s) (elim r [
            | err e ↦ err e
            | ok t ↦ ok (record { tok = t; raw = []; rest = (number false 0 [] (c ∷ s)).1 })
          ])
      read (err e) k = k
      read (ok t) k = number_lt c s h

  lex_punct-Leaves : (start c : ℕ) (s : List ℕ) → Leaves (length s) (lex_punct classes start c s)
  unfolding lex_punct
  lex_punct-Leaves start c s = read (punct_length (c ∷ s))
    where
      read :
          (n : ℕ)
          → Leaves (length s) (elim n [
            | zero ↦ err (unexpected c start)
            | suc m ↦ ok (record {
              tok = punct (take (suc m) (c ∷ s));
              raw = [];
              rest = drop (suc m) (c ∷ s);
            })
          ])
      read zero = tt
      read (suc m) = let l = length-drop m s in omega arith

  if-Leaves :
      (n : ℕ) (b : Bool) (x y : Lex)
      → (b ≡ true → Leaves n x)
      → Leaves n y
      → Leaves n (if b then x else y)
  if-Leaves n true x y h k = h refl
  if-Leaves n false x y h k = k

  pub lex_token-Leaves :
      (start c : ℕ) (s : List ℕ) → Leaves (length s) (lex_token classes start c s)
  unfolding lex_token
  lex_token-Leaves start c s =
      if-Leaves _ (c == 96) _ _ (λ e. lex_quoted-Leaves start s)
        (if-Leaves _ (c == 39 || c == 34) _ _ (λ e. lex_string-Leaves c s)
          (if-Leaves _ (c == 36) _ _ (λ e. lex_param-Leaves start s)
            (if-Leaves _ (is_digit c) _ _ (λ e. lex_number-Leaves c s e)
              (if-Leaves _ (at_word_start classes (c ∷ s)) _ _ (λ e. lex_word-Leaves c s e)
                (lex_punct-Leaves start c s)))))
