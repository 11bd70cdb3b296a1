-- ===== src/Cypher/Tokens.antt =====
-- The tokens of engine/src/cypher/lexer.rs.
use ontological_db.Base.{ℕ, zero, suc, ◌+◌, ◌-◌, ◌≡◌, ◌≤◌, ◌<◌, refl, List, [], ◌∷◌, length, arith}
use ontological_db.Base.Outcome.{Result, ok, err}
use ontological_db.Cypher.Scan.{Classes, LexError, gap, skip_trivia}
use ontological_db.Cypher.Lexer.{eof, Token, Lex, lex_token, tokens, tokenize}
use ontological_db.Cypher.Progress.{Proper, Leaves, lex_token-Leaves, skip_trivia_le}

-- Tokens at ascending offsets from `lo` on, the last of which is the end of the text.
abbrev pub Ascends : ℕ → ℕ → List Token → Type 0
Ascends lo size [] = ⊥
Ascends lo size (t ∷ []) = (t.tok ≡ eof) × (t.pos ≡ size) × (lo ≤ size)
Ascends lo size (t ∷ u ∷ ts) = (lo ≤ t.pos) × Ascends (suc t.pos) size (u ∷ ts)

abbrev pub Tokenized : ℕ → ℕ → Result LexError (List Token) → Type 0
Tokenized lo size (err e) = Proper e
Tokenized lo size (ok ts) = Ascends lo size ts

Ascends-cons :
    (lo size : ℕ) (t : Token) (ts : List Token)
    → lo ≤ t.pos
    → Ascends (suc t.pos) size ts
    → Ascends lo size (t ∷ ts)
Ascends-cons lo size t [] h k = absurd k
Ascends-cons lo size t (u ∷ ts) h k = (h, k)

module _ (classes : Classes) where
  followed :
      (lo size : ℕ) (t : Token) (r : Result LexError (List Token))
      → lo ≤ t.pos
      → Tokenized (suc t.pos) size r
      → Tokenized lo size (elim r [ err e ↦ err e | ok more ↦ ok (t ∷ more) ])
  followed lo size t (err e) h k = k
  followed lo size t (ok more) h k = Ascends-cons lo size t more h k

  lexed :
      (lo size pos n : ℕ) (next : List ℕ → Result LexError (List Token)) (x : Lex)
      → lo ≤ pos
      → Leaves n x
      → ((rest : List ℕ) → length rest ≤ n → Tokenized (suc pos) size (next rest))
      → Tokenized lo size (elim x [
        | err e ↦ err e
        | ok l ↦ elim (next l.rest) [
          | err e ↦ err e
          | ok more ↦ ok (record { tok = l.tok; pos = pos; raw = l.raw } ∷ more)
        ]
      ])
  lexed lo size pos n next (err e) h k again = k
  lexed lo size pos n next (ok l) h k again =
      followed lo size (record { tok = l.tok; pos = pos; raw = l.raw }) (next l.rest) h
        (again l.rest k)

  tokens-Tokenized :
      (f lo size : ℕ) (s : List ℕ)
      → length s < f
      → lo + length s ≤ size
      → Tokenized lo size (tokens classes f size s)
  unfolding tokens
  tokens-Tokenized zero lo size s h k = absurd (omega arith)
  tokens-Tokenized (suc f) lo size s h k =
      after (λ lo' rest a b. tokens-Tokenized f lo' size rest a b) (skip_trivia gap s)
        (skip_trivia_le gap s)
    where
      after :
          ((lo' : ℕ) (rest : List ℕ)
            → length rest < f
            → lo' + length rest ≤ size
            → Tokenized lo' size (tokens classes f size rest))
          → (rest : List ℕ) → length rest ≤ length s
          → Tokenized lo size (elim rest [
            | [] ↦ ok (record { tok = eof; pos = size; raw = [] } ∷ [])
            | c ∷ r ↦ elim (lex_token classes (size - length (c ∷ r)) c r) [
              | err e ↦ err e
              | ok l ↦ elim (tokens classes f size l.rest) [
                | err e ↦ err e
                | ok more ↦
                    ok (record { tok = l.tok; pos = size - length (c ∷ r); raw = l.raw } ∷ more)
              ]
            ]
          ])
      after again [] l = (refl, refl, omega arith)
      after again (c ∷ r) l =
          let pos = size - length (c ∷ r) in
          lexed lo size pos (length r) (tokens classes f size) (lex_token classes pos c r)
            (omega arith) (lex_token-Leaves classes pos c r)
            (λ rest m. again (suc pos) rest (omega arith) (omega arith))

-- For every text tokenize ends, with an error of the source or with tokens at ascending offsets, the
-- last of which is Eof at the end of the text.
pub tokenize_ends :
    (classes : Classes) (text : List ℕ) → Tokenized 0 (length text) (tokenize classes text)
unfolding tokenize
tokenize_ends classes text =
    tokens-Tokenized classes (length text + 1) 0 (length text) text (omega arith) (omega arith)
