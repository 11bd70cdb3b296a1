-- ===== src/Cypher/EvalChecks.antt =====
-- Runs of engine/src/cypher/eval.rs, and its theorems at concrete inputs.
use ontological_db.Base.{
  ℕ, ◌+◌, ◌-◌, ◌*◌, ◌/◌, ◌%◌, ◌^◌, ◌≡◌, refl, sym, subst, inl, inr, true, false, Bool-cases, ◌==◌,
  ltb, leb, List, [], none, list_eq, list_eq_iff,
}
use ontological_db.Base.Int.{ℤ, pos, negsuc}
use ontological_db.Base.Outcome.{ok, err}
use ontological_db.Text.Strings.{codes}
use ontological_db.Session.Json.{Json, null, bool, integer, number, array, nil, cons}
use ontological_db.Cypher.Ast.{
  Expr, lit, var, binary, not_expr, list, list_comp, list_pred, func, case_expr, no_exprs, expr,
  no_whens, when, absent, present, int, str, null_lit, gt, add, regex, any, all_of, none_of,
}
use ontological_db.Cypher.Eval.{Library, Env, bind_var, not_available, no_argument, json_eq}
use ontological_db.Cypher.Evaluator.{eval}
use ontological_db.Cypher.Reads.{reads, Agree}
use ontological_db.Cypher.Scopes.{eval-Agree}
use ontological_db.Cypher.Callable.{callable}
use ontological_db.Cypher.Truths.{is_test, IsTruth, eval_defined}
use ontological_db.Cypher.Quantifiers.{eval_quantifiers}

-- Small whole numbers that stand for themselves in place of their bit patterns.
abbrev of_whole : ℤ → ℕ
of_whole (pos n) = n
of_whole (negsuc n) = 0

abbrev small : Library
small = record {
  plus = λ x y. x + y;
  minus = λ x y. x - y;
  times = λ x y. x * y;
  over = λ x y. x / y;
  remainder = λ x y. x % y;
  powf = λ x y. x ^ y;
  negate = λ x. x;
  abs = λ x. x;
  float_eq = λ x y. x == y;
  float_lt = ltb;
  float_le = leb;
  of_int = of_whole;
  to_int = pos;
  parse = λ s. none;
  to_uppercase = λ s. s;
  to_lowercase = λ s. s;
  trim = λ s. s;
  print = λ v. [];
  now_iso = codes "now";
  now_epoch = pos 0;
}

abbrev x_name : List ℕ
x_name = codes "x"

abbrev one_two : Expr
one_two = list (expr (lit (int (pos 1))) (expr (lit (int (pos 2))) no_exprs))

-- x > y
abbrev above : Expr
above = binary gt (var x_name) (var (codes "y"))

abbrev row : Env
row = bind_var (codes "y") (integer (pos 1)) (λ w. none)

eval_runs :
    (eval small null (list_comp x_name one_two (present above) absent) row
      ≡ ok (array (cons (integer (pos 2)) nil)))
    × (eval small null (list_pred any x_name one_two above) row ≡ ok (bool true))
    × (eval small null (list_pred all_of x_name one_two above) row ≡ ok (bool false))
    × (eval small null (list_pred all_of x_name (var x_name) above) row ≡ ok (bool true))
    × (eval small null (not_expr (lit null_lit)) row ≡ ok (bool true))
    × (eval small null (binary add (lit (int (pos 1))) (lit (int (pos 1)))) row ≡ ok (number 2))
    × (eval small null (binary regex (lit (str x_name)) (lit (str x_name))) row ≡ ok (bool false))
    × (eval small null (case_expr absent (when above (var x_name) no_whens) (present one_two)) row
        ≡ ok (array (cons (integer (pos 1)) (cons (integer (pos 2)) nil))))
unfolding eval json_eq list_eq
eval_runs = (refl, refl, refl, refl, refl, refl, refl, refl)

func_runs :
    (eval small null (func (codes "toUpper") no_exprs false) row ≡ err no_argument)
    × (eval small null (func (codes "Nope") no_exprs false) row
        ≡ err (not_available (codes "nope")))
unfolding eval list_eq
func_runs = (refl, refl)

abbrev filtered : Expr
filtered = list_comp x_name one_two (present above) absent

eval-Agree_example :
    eval small null filtered row ≡ eval small null filtered (bind_var x_name null row)
unfolding reads list_eq
eval-Agree_example = eval-Agree small null filtered row (bind_var x_name null row) same
  where
    unread : (w : List ℕ) → x_name ≡ w → reads filtered w ≡ true → ⊥
    unread w q h =
        let k : reads filtered x_name ≡ true = subst (λ z. reads filtered z ≡ true) (sym q) h in
        cc k

    same : Agree (reads filtered) row (bind_var x_name null row)
    same w h = elim (Bool-cases (list_eq x_name w)) [
      | inl k ↦ absurd (unread w ((list_eq_iff x_name w).0 k) h)
      | inr k ↦ rw k refl
    ]

eval_defined_example :
    (v : Json) × (eval small null (list_pred any x_name one_two above) row ≡ ok v)
    × (is_test (list_pred any x_name one_two above) ≡ true → IsTruth v)
unfolding callable
eval_defined_example = eval_defined small null (list_pred any x_name one_two above) row refl

eval_quantifiers_example :
    (eval small null (list_pred none_of x_name one_two above) row
      ≡ eval small null (list_pred all_of x_name one_two (not_expr above)) row)
    × (eval small null (list_pred any x_name one_two above) row
        ≡ eval small null (not_expr (list_pred none_of x_name one_two above)) row)
eval_quantifiers_example = eval_quantifiers small null x_name one_two above row
