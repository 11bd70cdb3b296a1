-- ===== src/Sql/Checks.antt =====
-- Quoted texts of engine/src/spiu.rs.
use ontological_db.Base.{ℕ, ◌≡◌, refl, true, false, List, [], ◌∷◌, ◌++◌, some}
use ontological_db.Base.Outcome.{ok, err}
use ontological_db.Sql.{dot, contains_char, lit, ident, qname, nul_byte}
use ontological_db.Sql.Syntax.{starts, resume, literal, name}
use ontological_db.Text.Strings.{codes}
use ontological_db.Sql.Quoting.{literal-lit, name-ident, name-qname}

-- `O'\`
abbrev awkward : List ℕ
awkward = 79 ∷ 39 ∷ 92 ∷ []

-- ` E'O''\\'`
awkward_quoted : lit awkward ≡ 32 ∷ 69 ∷ 39 ∷ 79 ∷ 39 ∷ 39 ∷ 92 ∷ 92 ∷ 39 ∷ []
unfolding lit
awkward_quoted = refl

literal-lit_example : literal true (lit awkward ++ 44 ∷ []) ≡ some (awkward, 44 ∷ [])
unfolding starts resume
literal-lit_example = literal-lit true awkward (44 ∷ []) refl refl

-- `'a' -- b` and `'c'` on the next line are one constant; on one line they are not.
joined_runs :
    (literal true (codes "'a' -- b" ++ 10 ∷ codes "'c',") ≡ some (codes "ac", codes ","))
    × (literal true (codes "'a' 'c',") ≡ some (codes "a", codes " 'c',"))
unfolding literal
joined_runs = (refl, refl)

name-ident_example :
    (contains_char (34 ∷ 97 ∷ []) 0 ≡ false
      → (t : List ℕ) × (ident (34 ∷ 97 ∷ []) ≡ ok t)
        × (name (t ++ dot ∷ []) ≡ some (34 ∷ 97 ∷ [], dot ∷ [])))
    × (contains_char (34 ∷ 97 ∷ []) 0 ≡ true → ident (34 ∷ 97 ∷ []) ≡ err nul_byte)
unfolding starts
name-ident_example = name-ident (34 ∷ 97 ∷ []) (dot ∷ []) refl

-- `a.b.c`
name-qname_example :
    (t u : List ℕ) × (qname (97 ∷ dot ∷ 98 ∷ dot ∷ 99 ∷ []) ≡ ok t)
    × (name t ≡ some (97 ∷ [], dot ∷ u))
    × (name u ≡ some (98 ∷ dot ∷ 99 ∷ [], []))
unfolding contains_char
name-qname_example = name-qname (97 ∷ []) (98 ∷ dot ∷ 99 ∷ []) refl refl refl
