-- ===== src/Cypher/Evaluator.antt =====
-- `eval` of engine/src/cypher/eval.rs.
use ontological_db.Base.{Bool, true, false, not, Option, none, some}
use ontological_db.Base.Outcome.{Result, ok, ◌>>=◌}
use ontological_db.Session.Json.{
  Json, null, bool, array, object, Elements, nil, cons, Members, end, put, get,
}
use ontological_db.Cypher.Ast.{
  Expr, Exprs, NamedExprs, Whens, MaybeExpr, MapProjItems, lit, param, var, prop, binary, not_expr,
  neg, is_null, func, list, map_expr, case_expr, list_comp, list_pred, map_projection, star,
  no_exprs, expr, no_entries, entry, no_whens, when, absent, present, no_items, prop_item, all_item,
  entry_item,
}
use ontological_db.Cypher.Eval.{
  Library, EvalError, Env, or_null, lit_value, same_bool, is_null_value, count_elements, truthy,
}
use ontological_db.Cypher.Operations.{
  items_of, quantified, put_subject, comprehend, count_hits, apply_binary, call_func, negated,
  taken, truth_of, or_null_of,
}

module _ (lib : Library) (params : Json) where
  unfoldable mutual
    unfolding truthy truth_of apply_binary call_func taken comprehend count_hits put get

    pub eval : Expr → Env → Result EvalError Json
    eval (lit l) env = ok (lit_value l)
    eval (param p) env = ok (or_null (get params p))
    eval (var v) env = ok (or_null (env v))
    eval (prop base p) env = do b ← eval base env; ok (or_null (get b p))
    eval (list xs) env = do vs ← eval_all xs env; ok (array vs)
    eval (map_expr kv) env = do m ← eval_entries kv env end; ok (object m)
    eval (neg a) env = do v ← eval a env; ok (negated lib v)
    eval (not_expr a) env = do v ← eval a env; ok (bool (not (truthy lib v)))
    eval (is_null a want) env = do v ← eval a env; ok (bool (same_bool (is_null_value v) want))
    eval (binary op l r) env = do a ← eval l env; b ← eval r env; ok (apply_binary lib op a b)
    eval (case_expr operand whens last) env = do
      subject ← eval_maybe operand env
      eval_whens subject whens (or_null_of lib (eval_maybe last env)) env
    eval (func name args distinct) env = do a ← eval_all args env; call_func lib name a
    eval (list_comp v source filter project) env = do
      src ← eval source env
      elim (items_of src) [
        | none ↦ ok (array nil)
        | some xs ↦ do
          out ← comprehend (eval_filter filter) (eval_project project) v xs env
          ok (array out)
      ]
    eval (list_pred kind v source filter) env = do
      src ← eval source env
      elim (items_of src) [
        | none ↦ ok (bool (quantified kind 0 0))
        | some xs ↦ do
          hits ← count_hits (λ l. truth_of lib (eval filter l)) v xs env 0
          ok (bool (quantified kind hits (count_elements xs)))
      ]
    eval (map_projection v items) env = do
      m ← eval_items (or_null (env v)) items env end
      ok (object m)
    eval star env = ok null

    pub eval_all : Exprs → Env → Result EvalError Elements
    eval_all no_exprs env = ok nil
    eval_all (expr e es) env = do v ← eval e env; vs ← eval_all es env; ok (cons v vs)

    pub eval_entries : NamedExprs → Env → Members → Result EvalError Members
    eval_entries no_entries env m = ok m
    eval_entries (entry k e es) env m = do v ← eval e env; eval_entries es env (put k v m)

    pub eval_maybe : MaybeExpr → Env → Result EvalError (Option Json)
    eval_maybe absent env = ok none
    eval_maybe (present e) env = do v ← eval e env; ok (some v)

    -- `otherwise` is what ELSE gives, which counts only if no branch is taken.
    pub eval_whens : Option Json → Whens → Result EvalError Json → Env → Result EvalError Json
    eval_whens subject no_whens otherwise env = otherwise
    eval_whens subject (when cond val ws) otherwise env = do
      c ← eval cond env
      elim (taken lib subject c) [
        | true ↦ eval val env
        | false ↦ eval_whens subject ws otherwise env
      ]

    pub eval_filter : MaybeExpr → Env → Result EvalError Bool
    eval_filter absent env = ok true
    eval_filter (present e) env = truth_of lib (eval e env)

    pub eval_project : MaybeExpr → Env → Json → Result EvalError Json
    eval_project absent env item = ok item
    eval_project (present e) env item = eval e env

    pub eval_items : Json → MapProjItems → Env → Members → Result EvalError Members
    eval_items subject no_items env m = ok m
    eval_items subject (prop_item p items) env m =
        eval_items subject items env (put p (or_null (get subject p)) m)
    eval_items subject (all_item items) env m = eval_items subject items env (put_subject subject m)
    eval_items subject (entry_item k e items) env m = do
      v ← eval e env
      eval_items subject items env (put k v m)
