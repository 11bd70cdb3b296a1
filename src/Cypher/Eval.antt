-- ===== src/Cypher/Eval.antt =====
-- engine/src/cypher/eval.rs: the evaluator of the write clauses. What floating-point numbers, Unicode,
-- serde_json's printer and PostgreSQL's clock do is a parameter. An environment is a function.
use ontological_db.Base.{
  ℕ, suc, ◌+◌, ◌/◌, ◌%◌, ◌^◌, Bool, true, false, not, ◌&&◌, ◌||◌, ◌==◌, if◌then◌else◌, List, [],
  ◌∷◌, map, Option, none, some, list_eq,
}
use ontological_db.Base.Int.{ℤ, pos, negsuc}
use ontological_db.Base.Outcome.{Result, ok, err}
use ontological_db.Text.Strings.{codes, to_lower, is_continuation}
use ontological_db.Session.Json.{
  Json, null, bool, integer, number, string, array, object, Elements, nil, cons, Members, end,
  member,
}
use ontological_db.Cypher.Ast.{Lit, int, float, str, truth, null_lit}

pub record Library : Type 0 where
  pub plus : ℕ → ℕ → ℕ
  pub minus : ℕ → ℕ → ℕ
  pub times : ℕ → ℕ → ℕ
  pub over : ℕ → ℕ → ℕ
  pub remainder : ℕ → ℕ → ℕ
  pub powf : ℕ → ℕ → ℕ
  pub negate : ℕ → ℕ
  pub abs : ℕ → ℕ
  pub float_eq : ℕ → ℕ → Bool
  pub float_lt : ℕ → ℕ → Bool
  pub float_le : ℕ → ℕ → Bool
  pub of_int : ℤ → ℕ
  pub to_int : ℕ → ℤ
  pub parse : List ℕ → Option ℕ
  pub to_uppercase : List ℕ → List ℕ
  pub to_lowercase : List ℕ → List ℕ
  pub trim : List ℕ → List ℕ
  pub print : Json → List ℕ
  pub now_iso : List ℕ
  pub now_epoch : ℤ

-- A name that the evaluator does not have, or `a[0]` of no arguments, which panics.
pub data EvalError : Type 0 where
  not_available : List ℕ → EvalError
  no_argument : EvalError

abbrev pub Env : Type 0
Env = List ℕ → Option Json

abbrev pub bind_var : List ℕ → Json → Env → Env
bind_var v x env = λ w. if list_eq v w then some x else env w

abbrev pub or_null : Option Json → Json
or_null none = null
or_null (some v) = v

-- `json!` of a float: null if it is not finite.
abbrev pub from_f64 : ℕ → Json
from_f64 x = if (x / 2 ^ 52) % 2048 == 2047 then null else number x

abbrev pub lit_value : Lit → Json
lit_value (int i) = integer i
lit_value (float f) = from_f64 f
lit_value (str s) = string s
lit_value (truth b) = bool b
lit_value null_lit = null

abbrev pub same_bool : Bool → Bool → Bool
same_bool true b = b
same_bool false b = not b

abbrev pub same_int : ℤ → ℤ → Bool
same_int (pos m) (pos n) = m == n
same_int (negsuc m) (negsuc n) = m == n
same_int _ _ = false

abbrev pub nothing_in : List ℕ → Bool
nothing_in [] = true
nothing_in (b ∷ bs) = false

abbrev pub is_null_value : Json → Bool
is_null_value null = true
is_null_value _ = false

abbrev pub ends_with_text : List ℕ → List ℕ → Bool
ends_with_text p [] = nothing_in p
ends_with_text p (b ∷ bs) = list_eq p (b ∷ bs) || ends_with_text p bs

-- `s.chars().count()`
abbrev pub chars_count : List ℕ → ℕ
chars_count [] = 0
chars_count (b ∷ bs) = (if is_continuation b then 0 else 1) + chars_count bs

abbrev pub count_elements : Elements → ℕ
count_elements nil = 0
count_elements (cons v vs) = suc (count_elements vs)

abbrev pub keys_of : Members → Elements
keys_of end = nil
keys_of (member k v m) = cons (string k) (keys_of m)

-- The first that is not null.
abbrev pub coalesce : Elements → Json
coalesce nil = null
coalesce (cons v vs) = if is_null_value v then coalesce vs else v

abbrev pub arg0 : Elements → Result EvalError Json
arg0 nil = err no_argument
arg0 (cons v vs) = ok v

-- The arms of `func`.
pub data Builtin : Type 0 where
  to_upper to_lower_case trim_text to_string to_integer to_float coalesce_all size_of abs_of id
        element_id type_of labels keys timestamp datetime :
      Builtin

abbrev pub lookup : List ℕ → List (List ℕ × Builtin) → Option Builtin
lookup name [] = none
lookup name ((n, b) ∷ bs) = if list_eq n name then some b else lookup name bs

unfoldable pub builtin : List ℕ → Option Builtin
builtin name = lookup (map to_lower name) (
    (codes "toupper", to_upper)
    ∷ (codes "upper", to_upper)
    ∷ (codes "tolower", to_lower_case)
    ∷ (codes "lower", to_lower_case)
    ∷ (codes "trim", trim_text)
    ∷ (codes "tostring", to_string)
    ∷ (codes "tointeger", to_integer)
    ∷ (codes "tofloat", to_float)
    ∷ (codes "coalesce", coalesce_all)
    ∷ (codes "size", size_of)
    ∷ (codes "length", size_of)
    ∷ (codes "abs", abs_of)
    ∷ (codes "id", id)
    ∷ (codes "elementid", element_id)
    ∷ (codes "type", type_of)
    ∷ (codes "labels", labels)
    ∷ (codes "keys", keys)
    ∷ (codes "timestamp", timestamp)
    ∷ (codes "datetime", datetime)
    ∷ [])

module _ (lib : Library) where
  unfoldable pub truthy : Json → Bool
  truthy null = false
  truthy (bool b) = b
  truthy (integer i) = not (lib.float_eq (lib.of_int i) 0)
  truthy (number f) = not (lib.float_eq f 0)
  truthy (string s) = not (nothing_in s)
  truthy (array nil) = false
  truthy (array (cons v vs)) = true
  truthy (object end) = false
  truthy (object (member k v m)) = true

  unfoldable pub num : Json → Option ℕ
  num (integer i) = some (lib.of_int i)
  num (number f) = some f
  num (string s) = lib.parse s
  num _ = none

  unfoldable pub as_text : Json → List ℕ
  as_text (string s) = s
  as_text null = []
  as_text v = lib.print v

  -- `==` of serde_json's values. An integer above the range of `i64` is kept as the number of the same
  -- value, as Session.Json says, so it equals that number here.
  unfoldable mutual
    pub json_eq : Json → Json → Bool
    json_eq null null = true
    json_eq (bool a) (bool b) = same_bool a b
    json_eq (integer i) (integer j) = same_int i j
    json_eq (number f) (number g) = lib.float_eq f g
    json_eq (string s) (string t) = list_eq s t
    json_eq (array xs) (array ys) = elements_eq xs ys
    json_eq (object m) (object n) = members_eq m n
    json_eq _ _ = false

    pub elements_eq : Elements → Elements → Bool
    elements_eq nil nil = true
    elements_eq (cons v vs) (cons w ws) = json_eq v w && elements_eq vs ws
    elements_eq _ _ = false

    pub members_eq : Members → Members → Bool
    members_eq end end = true
    members_eq (member k v m) (member j w n) = list_eq k j && (json_eq v w && members_eq m n)
    members_eq _ _ = false

  unfoldable pub contains_value : Json → Elements → Bool
  unfolding json_eq
  contains_value v nil = false
  contains_value v (cons w ws) = json_eq w v || contains_value v ws
