-- ===== src/Sql.antt =====
-- engine/src/spiu.rs: the quoting of literals and names. A text is the list of its characters.
mod Syntax
pub mod Quoting
mod Checks
use ontological_db.Base.{
  ℕ, Bool, true, false, ◌==◌, if◌then◌else◌, List, [], ◌∷◌, ◌++◌, Option, some, none,
}
use ontological_db.Base.Outcome.{Result, ok, err, ◌>>=◌}

abbrev pub quote : ℕ
quote = 39

abbrev pub double_quote : ℕ
double_quote = 34

abbrev pub backslash : ℕ
backslash = 92

abbrev pub dot : ℕ
dot = 46

pub data NameError : Type 0 where
  nul_byte : NameError

pub contains_char : List ℕ → ℕ → Bool
contains_char [] c = false
contains_char (x ∷ xs) c = if x == c then true else contains_char xs c

-- `s.replace(c, …)` for a character that is doubled.
pub double : ℕ → List ℕ → List ℕ
double c [] = []
double c (x ∷ xs) = let rest = double c xs in if x == c then c ∷ c ∷ rest else x ∷ rest

pub lit : List ℕ → List ℕ
unfolding contains_char double
lit s =
    if contains_char s backslash
    then 32 ∷ 69 ∷ quote ∷ (double quote (double backslash s) ++ quote ∷ [])
    else quote ∷ (double quote s ++ quote ∷ [])

pub ident : List ℕ → Result NameError (List ℕ)
unfolding contains_char double
ident s =
    if contains_char s 0
    then err nul_byte
    else ok (double_quote ∷ (double double_quote s ++ double_quote ∷ []))

-- `s.split_once('.')`
pub split_once : List ℕ → Option (List ℕ × List ℕ)
split_once [] = none
split_once (x ∷ xs) =
    let later : Option (List ℕ × List ℕ) = elim (split_once xs) [
      | none ↦ none
      | some (schema, rel) ↦ some (x ∷ schema, rel)
    ] in
    if x == dot then some ([], xs) else later

pub qname : List ℕ → Result NameError (List ℕ)
unfolding split_once ident
qname s = elim (split_once s) [
  | none ↦ ident s
  | some (schema, rel) ↦ do a ← ident schema; b ← ident rel; ok (a ++ dot ∷ b)
]
