-- ===== src/Cypher/Truths.antt =====
-- The type of what engine/src/cypher/eval.rs makes of a test.
use ontological_db.Base.{refl, false, ◌≡◌, sym, ◌∙◌, Bool, true, Option-cases, inl, inr}
use ontological_db.Base.Outcome.{Result, ok}
use ontological_db.Session.Json.{Json, bool}
use ontological_db.Cypher.Ast.{
  Expr, lit, param, var, prop, binary, not_expr, neg, is_null, func, list, map_expr, case_expr,
  list_comp, list_pred, map_projection, star,
}
use ontological_db.Cypher.Eval.{Library, EvalError, Env}
use ontological_db.Cypher.Operations.{items_of, count_hits, apply_binary, truth_of}
use ontological_db.Cypher.Evaluator.{eval}
use ontological_db.Cypher.Ast.{
  BinOp, add, sub, mul, div, mod_op, pow, eq, ne, lt, le, gt, ge, and, or, xor, in_op, starts_with,
  ends_with, contains, regex, concat,
}
use ontological_db.Cypher.Callable.{callable}
use ontological_db.Cypher.Defined.{bind-ok, defined}

-- The operators and expressions that are tests.
abbrev pub is_bool_op : BinOp → Bool
is_bool_op add = false
is_bool_op sub = false
is_bool_op mul = false
is_bool_op div = false
is_bool_op mod_op = false
is_bool_op pow = false
is_bool_op concat = false
is_bool_op _ = true

abbrev pub is_test : Expr → Bool
is_test (binary op l r) = is_bool_op op
is_test (not_expr a) = true
is_test (is_null a want) = true
is_test (list_pred kind v source filter) = true
is_test _ = false

abbrev pub IsTruth : Json → Type 0
IsTruth v = (b : Bool) × (v ≡ bool b)

apply_binary-IsTruth :
    (lib : Library) (op : BinOp) (a b : Json)
    → is_bool_op op ≡ true
    → IsTruth (apply_binary lib op a b)
unfolding apply_binary
apply_binary-IsTruth lib add a b h = absurd (cc h)
apply_binary-IsTruth lib sub a b h = absurd (cc h)
apply_binary-IsTruth lib mul a b h = absurd (cc h)
apply_binary-IsTruth lib div a b h = absurd (cc h)
apply_binary-IsTruth lib mod_op a b h = absurd (cc h)
apply_binary-IsTruth lib pow a b h = absurd (cc h)
apply_binary-IsTruth lib concat a b h = absurd (cc h)
apply_binary-IsTruth lib eq a b h = (_, refl)
apply_binary-IsTruth lib ne a b h = (_, refl)
apply_binary-IsTruth lib lt a b h = (_, refl)
apply_binary-IsTruth lib le a b h = (_, refl)
apply_binary-IsTruth lib gt a b h = (_, refl)
apply_binary-IsTruth lib ge a b h = (_, refl)
apply_binary-IsTruth lib and a b h = (_, refl)
apply_binary-IsTruth lib or a b h = (_, refl)
apply_binary-IsTruth lib xor a b h = (_, refl)
apply_binary-IsTruth lib in_op a b h = (_, refl)
apply_binary-IsTruth lib starts_with a b h = (_, refl)
apply_binary-IsTruth lib ends_with a b h = (_, refl)
apply_binary-IsTruth lib contains a b h = (_, refl)
apply_binary-IsTruth lib regex a b h = (_, refl)

ok-IsTruth :
    (b : Bool) (v : Json) → ◌≡◌ {A = Result EvalError Json} (ok (bool b)) (ok v) → IsTruth v
ok-IsTruth b v t = let q : bool b ≡ v = cc t in (b, sym q)

eval-IsTruth :
    (lib : Library) (params : Json) (x : Expr) (e : Env) (v : Json)
    → is_test x ≡ true
    → eval lib params x e ≡ ok v
    → IsTruth v
unfolding eval
eval-IsTruth lib params (binary op l r) e v h q =
    let (a, i, s) = bind-ok (eval lib params l e) _ v q in
    let (b, j, t) = bind-ok (eval lib params r e) _ v s in
    let (c, k) = apply_binary-IsTruth lib op a b h in
    let same : apply_binary lib op a b ≡ v = cc t in (c, sym same ∙ k)
eval-IsTruth lib params (not_expr a) e v h q =
    let (b, i, s) = bind-ok (eval lib params a e) _ v q in ok-IsTruth _ v s
eval-IsTruth lib params (is_null a want) e v h q =
    let (b, i, s) = bind-ok (eval lib params a e) _ v q in ok-IsTruth _ v s
eval-IsTruth lib params (list_pred kind w source filter) e v h q =
    let (s, i, r) = bind-ok (eval lib params source e) _ v q in
    elim (Option-cases (items_of s)) [
      | inl n ↦ ok-IsTruth _ v (rw n at r)
      | inr (xs, n) ↦
          let (k, j, t) =
            bind-ok (count_hits (λ l. truth_of lib (eval lib params filter l)) w xs e 0) _ v
              (rw n at r) in
          ok-IsTruth _ v t
    ]
eval-IsTruth lib params (lit l) e v h q = absurd (cc h)
eval-IsTruth lib params (param p) e v h q = absurd (cc h)
eval-IsTruth lib params (var w) e v h q = absurd (cc h)
eval-IsTruth lib params (prop b p) e v h q = absurd (cc h)
eval-IsTruth lib params (neg a) e v h q = absurd (cc h)
eval-IsTruth lib params (func name args distinct) e v h q = absurd (cc h)
eval-IsTruth lib params (list xs) e v h q = absurd (cc h)
eval-IsTruth lib params (map_expr kv) e v h q = absurd (cc h)
eval-IsTruth lib params (case_expr operand whens last) e v h q = absurd (cc h)
eval-IsTruth lib params (list_comp w source filter project) e v h q = absurd (cc h)
eval-IsTruth lib params (map_projection w items) e v h q = absurd (cc h)
eval-IsTruth lib params star e v h q = absurd (cc h)

-- An expression whose calls are of functions that the evaluator has, with the argument they take, has
-- a value in every environment, and a comparison, a connective, NOT, IS NULL or a quantifier among them
-- has a Boolean, never null.
pub eval_defined :
    (lib : Library) (params : Json) (x : Expr) (e : Env)
    → callable x ≡ true
    → (v : Json) × (eval lib params x e ≡ ok v) × (is_test x ≡ true → IsTruth v)
eval_defined lib params x e h =
    let (v, q) = defined lib params x e h in (v, q, λ t. eval-IsTruth lib params x e v t q)
