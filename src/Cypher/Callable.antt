-- ===== src/Cypher/Callable.antt =====
-- The expressions that engine/src/cypher/eval.rs can evaluate.
use ontological_db.Base.{ℕ, Bool, true, false, ◌&&◌, ◌||◌, List, none, some}
use ontological_db.Cypher.Ast.{
  Expr, Exprs, NamedExprs, Whens, MaybeExpr, MapProjItems, lit, param, var, prop, binary, not_expr,
  neg, is_null, func, list, map_expr, case_expr, list_comp, list_pred, map_projection, star,
  no_exprs, expr, no_entries, entry, no_whens, when, absent, present, no_items, prop_item, all_item,
  entry_item,
}
use ontological_db.Cypher.Eval.{Builtin, builtin}
use ontological_db.Cypher.Eval.{coalesce_all, timestamp, datetime}

-- The functions that do without an argument.
abbrev pub needs_no_argument : Builtin → Bool
needs_no_argument coalesce_all = true
needs_no_argument timestamp = true
needs_no_argument datetime = true
needs_no_argument _ = false

abbrev pub some_exprs : Exprs → Bool
some_exprs no_exprs = false
some_exprs (expr x xs) = true

-- A name that the evaluator has, with the argument it takes.
unfoldable pub available : List ℕ → Exprs → Bool
unfolding builtin
available name args = elim (builtin name) [
  | none ↦ false
  | some b ↦ needs_no_argument b || some_exprs args
]

-- All calls in an expression are of such functions.
unfoldable mutual
  unfolding available

  pub callable : Expr → Bool
  callable (lit l) = true
  callable (param p) = true
  callable (var v) = true
  callable (prop b p) = callable b
  callable (binary op l r) = callable l && callable r
  callable (not_expr a) = callable a
  callable (neg a) = callable a
  callable (is_null a want) = callable a
  callable (func name args distinct) = available name args && callable_all args
  callable (list xs) = callable_all xs
  callable (map_expr kv) = callable_entries kv
  callable (case_expr operand whens last) =
      callable_maybe operand && (callable_whens whens && callable_maybe last)
  callable (list_comp v source filter project) =
      callable source && (callable_maybe filter && callable_maybe project)
  callable (list_pred kind v source filter) = callable source && callable filter
  callable (map_projection v items) = callable_items items
  callable star = true

  pub callable_all : Exprs → Bool
  callable_all no_exprs = true
  callable_all (expr x xs) = callable x && callable_all xs

  pub callable_entries : NamedExprs → Bool
  callable_entries no_entries = true
  callable_entries (entry k x xs) = callable x && callable_entries xs

  pub callable_whens : Whens → Bool
  callable_whens no_whens = true
  callable_whens (when c x ws) = callable c && (callable x && callable_whens ws)

  pub callable_maybe : MaybeExpr → Bool
  callable_maybe absent = true
  callable_maybe (present x) = callable x

  pub callable_items : MapProjItems → Bool
  callable_items no_items = true
  callable_items (prop_item p items) = callable_items items
  callable_items (all_item items) = callable_items items
  callable_items (entry_item k x items) = callable x && callable_items items
