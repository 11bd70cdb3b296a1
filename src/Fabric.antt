-- ===== src/Fabric.antt =====
-- engine/src/fabric/sqlish.rs: the dollar quotes around the text that is sent to a data source. A text
-- is the list of its bytes.
use ontological_db.Base.{
  ℕ, zero, suc, ◌+◌, ◌/◌, ◌%◌, ◌^◌, Bool, true, false, ◌==◌, ltb, if◌then◌else◌, List, [], ◌∷◌,
  ◌++◌, Option, some, none, length,
}
use ontological_db.Text.Strings.{starts_with, contains_text}
pub mod Dollars
mod Checks

-- A number in decimal, with a round for each digit.
unfoldable pub digits_from : ℕ → ℕ → List ℕ
digits_from zero n = []
digits_from (suc f) n =
    let rest = digits_from f (n / 10) in (if ltb n 10 then [] else rest) ++ (48 + n % 10) ∷ []

abbrev pub inner_tag : ℕ → List ℕ
inner_tag zero = 111 ∷ 103 ∷ []
inner_tag (suc n) = 111 ∷ 103 ∷ digits_from (suc (suc n)) (suc n)

-- `$og$`, `$og1$`, `$og2$`, …
abbrev pub dollar_tag : ℕ → List ℕ
dollar_tag n = 36 ∷ (inner_tag n ++ 36 ∷ [])

unfoldable pub dq_from : ℕ → ℕ → List ℕ → Option (List ℕ)
unfolding contains_text digits_from
dq_from zero n s = none
dq_from (suc f) n s = elim (contains_text (dollar_tag n) s) [
  | true ↦ dq_from f (suc n) s
  | false ↦ some (dollar_tag n ++ (s ++ dollar_tag n))
]

-- A tag with more digits than the text has bytes is not in it.
unfoldable pub dq : List ℕ → Option (List ℕ)
unfolding dq_from
dq s = dq_from (10 ^ length s + 1) 0 s
