-- ===== src/Cypher/Operations.antt =====
-- `binary`, `func` and the loops of engine/src/cypher/eval.rs.
use ontological_db.Base.{
  ℕ, suc, Bool, true, false, not, ◌&&◌, ◌||◌, ◌==◌, ltb, if◌then◌else◌, List, [], ◌∷◌, ◌++◌, map,
  Option, none, some,
}
use ontological_db.Base.Int.{pos}
use ontological_db.Base.Outcome.{Result, ok, err, ◌>>=◌}
use ontological_db.Text.Strings.{codes, starts_with, contains_text, to_lower}
use ontological_db.PackStream.Value.{text_lt}
use ontological_db.Session.Json.{
  Json, null, bool, integer, number, string, array, object, Elements, nil, cons, Members, end,
  member, put, get,
}
use ontological_db.Cypher.Ast.{BinOp, ListPredKind, any, all_of, none_of, single}
use ontological_db.Cypher.Ast.{
  add, sub, mul, div, mod_op, pow, eq, ne, lt, le, gt, ge, and, or, xor, in_op, ends_with, contains,
  regex, concat,
}
use ontological_db.Cypher.Eval.{
  Library, EvalError, not_available, Env, bind_var, or_null, from_f64, same_bool, ends_with_text,
  chars_count, count_elements, keys_of, coalesce, arg0, Builtin, builtin, truthy, num, as_text,
  json_eq, contains_value,
}
use ontological_db.Cypher.Eval.{
  to_upper, to_lower_case, trim_text, to_string, to_integer, to_float, coalesce_all, size_of,
  abs_of, id, element_id, type_of, labels, keys, timestamp, datetime,
}

abbrev pub items_of : Json → Option Elements
items_of (array xs) = some xs
items_of _ = none

abbrev pub quantified : ListPredKind → ℕ → ℕ → Bool
quantified any hits total = ltb 0 hits
quantified none_of hits total = hits == 0
quantified single hits total = hits == 1
quantified all_of hits total = hits == total

abbrev pub hidden : List ℕ → Bool
hidden [] = false
hidden (b ∷ bs) = b == 95

-- `.*`: the properties, without the fields that start with `_`.
abbrev pub put_all : Members → Members → Members
put_all end out = out
put_all (member k v m) out = let kept = if hidden k then out else put k v out in put_all m kept

abbrev pub put_subject : Json → Members → Members
put_subject (object o) out = put_all o out
put_subject _ out = out

-- The loop of a list comprehension.
unfoldable pub comprehend :
    {E : Type 0}
    → (Env → Result E Bool)
    → (Env → Json → Result E Json)
    → List ℕ
    → Elements
    → Env
    → Result E Elements
comprehend keep project v nil env = ok nil
comprehend keep project v (cons x xs) env = do
  kept ← keep (bind_var v x env)
  elim kept [
    | true ↦ do
      y ← project (bind_var v x env) x
      ys ← comprehend keep project v xs (bind_var v x env)
      ok (cons y ys)
    | false ↦ comprehend keep project v xs (bind_var v x env)
  ]

-- The loop of a quantifier, with the hits so far.
unfoldable pub count_hits :
    {E : Type 0} → (Env → Result E Bool) → List ℕ → Elements → Env → ℕ → Result E ℕ
count_hits test v nil env hits = ok hits
count_hits test v (cons x xs) env hits = do
  hit ← test (bind_var v x env)
  count_hits test v xs (bind_var v x env) (if hit then suc hits else hits)

module _ (lib : Library) where
  unfoldable pub arithmetic : (ℕ → ℕ → ℕ) → Json → Json → Json
  unfolding num
  arithmetic f a b = elim (num lib a) [
    | none ↦ null
    | some x ↦ elim (num lib b) [ none ↦ null | some y ↦ from_f64 (f x y) ]
  ]

  -- Null by a zero.
  unfoldable pub division : (ℕ → ℕ → ℕ) → Json → Json → Json
  unfolding num
  division f a b = elim (num lib a) [
    | none ↦ null
    | some x ↦ elim (num lib b) [
      | none ↦ null
      | some y ↦ if lib.float_eq y 0 then null else from_f64 (f x y)
    ]
  ]

  unfoldable pub joined_text : Json → Json → Json
  unfolding as_text
  joined_text a b = string (as_text lib a ++ as_text lib b)

  unfoldable pub addition : Json → Json → Json
  unfolding num joined_text
  addition a b = elim (num lib a) [
    | none ↦ joined_text a b
    | some x ↦ elim (num lib b) [ none ↦ joined_text a b | some y ↦ from_f64 (lib.plus x y) ]
  ]

  unfoldable pub comparison : (ℕ → ℕ → Bool) → (List ℕ → List ℕ → Bool) → Json → Json → Bool
  unfolding num as_text
  comparison f g a b = elim (num lib a) [
    | none ↦ g (as_text lib a) (as_text lib b)
    | some x ↦ elim (num lib b) [ none ↦ g (as_text lib a) (as_text lib b) | some y ↦ f x y ]
  ]

  unfoldable pub in_list : Json → Json → Bool
  unfolding contains_value
  in_list a b = elim (items_of b) [ none ↦ false | some xs ↦ contains_value lib a xs ]

  unfoldable pub apply_binary : BinOp → Json → Json → Json
  unfolding arithmetic division joined_text addition comparison in_list truthy json_eq text_lt
  apply_binary add a b = addition a b
  apply_binary sub a b = arithmetic lib.minus a b
  apply_binary mul a b = arithmetic lib.times a b
  apply_binary div a b = division lib.over a b
  apply_binary mod_op a b = division lib.remainder a b
  apply_binary pow a b = arithmetic lib.powf a b
  apply_binary eq a b = bool (json_eq lib a b)
  apply_binary ne a b = bool (not (json_eq lib a b))
  apply_binary lt a b = bool (comparison lib.float_lt text_lt a b)
  apply_binary le a b = bool (comparison lib.float_le (λ x y. not (text_lt y x)) a b)
  apply_binary gt a b = bool (comparison (λ x y. lib.float_lt y x) (λ x y. text_lt y x) a b)
  apply_binary ge a b = bool (comparison (λ x y. lib.float_le y x) (λ x y. not (text_lt x y)) a b)
  apply_binary and a b = bool (truthy lib a && truthy lib b)
  apply_binary or a b = bool (truthy lib a || truthy lib b)
  apply_binary xor a b = bool (not (same_bool (truthy lib a) (truthy lib b)))
  apply_binary concat a b = joined_text a b
  apply_binary BinOp.starts_with a b = bool (starts_with (as_text lib b) (as_text lib a))
  apply_binary ends_with a b = bool (ends_with_text (as_text lib b) (as_text lib a))
  apply_binary contains a b = bool (contains_text (as_text lib b) (as_text lib a))
  apply_binary regex a b = bool false
  apply_binary in_op a b = bool (in_list a b)

  abbrev pub of_number : (ℕ → Json) → Json → Json
  of_number f v = elim (num lib v) [ none ↦ null | some x ↦ f x ]

  abbrev pub size_value : Json → Json
  size_value (array xs) = integer (pos (count_elements xs))
  size_value (string s) = integer (pos (chars_count s))
  size_value _ = null

  abbrev pub labels_of : Json → Json
  labels_of v = elim (get v (codes "_type")) [ none ↦ null | some t ↦ array (cons t nil) ]

  abbrev pub element_id_of : Json → Json
  element_id_of v = elim (get v (codes "_id")) [ none ↦ null | some w ↦ string (lib.print w) ]

  abbrev pub keys_value : Json → Json
  keys_value (object m) = array (keys_of m)
  keys_value _ = null

  -- What a function makes of `a[0]`.
  abbrev pub with_arg : (Json → Json) → Elements → Result EvalError Json
  with_arg f a = do v ← arg0 a; ok (f v)

  unfoldable pub call_builtin : Builtin → Elements → Result EvalError Json
  call_builtin to_upper a = with_arg (λ v. string (lib.to_uppercase (as_text lib v))) a
  call_builtin to_lower_case a = with_arg (λ v. string (lib.to_lowercase (as_text lib v))) a
  call_builtin trim_text a = with_arg (λ v. string (lib.trim (as_text lib v))) a
  call_builtin to_string a = with_arg (λ v. string (as_text lib v)) a
  call_builtin to_integer a = with_arg (λ v. of_number (λ x. integer (lib.to_int x)) v) a
  call_builtin to_float a = with_arg (λ v. of_number from_f64 v) a
  call_builtin size_of a = with_arg (λ v. size_value v) a
  call_builtin abs_of a = with_arg (λ v. of_number (λ x. from_f64 (lib.abs x)) v) a
  call_builtin id a = with_arg (λ v. or_null (get v (codes "_id"))) a
  call_builtin element_id a = with_arg (λ v. element_id_of v) a
  call_builtin type_of a = with_arg (λ v. or_null (get v (codes "_type"))) a
  call_builtin labels a = with_arg (λ v. labels_of v) a
  call_builtin keys a = with_arg (λ v. keys_value v) a
  call_builtin coalesce_all a = ok (coalesce a)
  call_builtin timestamp a = ok (integer lib.now_epoch)
  call_builtin datetime a = ok (string lib.now_iso)

  unfoldable pub call_func : List ℕ → Elements → Result EvalError Json
  unfolding builtin call_builtin
  call_func name a = elim (builtin name) [
    | none ↦ err (not_available (map to_lower name))
    | some b ↦ call_builtin b a
  ]

  abbrev pub negated : Json → Json
  negated (integer i) = from_f64 (lib.negate (lib.of_int i))
  negated (number f) = from_f64 (lib.negate f)
  negated _ = null

  -- Whether a branch of CASE is taken.
  unfoldable pub taken : Option Json → Json → Bool
  unfolding truthy json_eq
  taken none v = truthy lib v
  taken (some s) v = json_eq lib s v

  unfoldable pub truth_of : Result EvalError Json → Result EvalError Bool
  unfolding truthy
  truth_of r = do v ← r; ok (truthy lib v)

  abbrev pub or_null_of : Result EvalError (Option Json) → Result EvalError Json
  or_null_of r = do v ← r; ok (or_null v)
