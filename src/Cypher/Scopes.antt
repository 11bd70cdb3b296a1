-- ===== src/Cypher/Scopes.antt =====
-- The environments that matter to `eval` of engine/src/cypher/eval.rs.
use ontological_db.Base.{
  ℕ, ◌≡◌, refl, ap, subst, Bool, not, ◌&&◌, ◌||◌, List, Option, list_eq, list_eq_iff,
}
use ontological_db.Base.Outcome.{Result, ok}
use ontological_db.Session.Json.{Json, Members, end}
use ontological_db.Cypher.Ast.{
  Expr, Exprs, NamedExprs, Whens, MaybeExpr, MapProjItems, lit, param, var, prop, binary, not_expr,
  neg, is_null, func, list, map_expr, case_expr, list_comp, list_pred, map_projection, star,
  no_exprs, expr, no_entries, entry, no_whens, when, absent, present, no_items, prop_item, all_item,
  entry_item,
}
use ontological_db.Cypher.Eval.{Library, EvalError, Env, bind_var, or_null}
use ontological_db.Cypher.Operations.{items_of, truth_of, taken, or_null_of}
use ontological_db.Cypher.Evaluator.{
  eval, eval_all, eval_entries, eval_maybe, eval_whens, eval_filter, eval_project, eval_items,
}
use ontological_db.Cypher.Reads.{
  reads, reads_any, reads_entries, reads_whens, reads_maybe, reads_items, Agree, Agree-left,
  Agree-right, Agree-next, Agree-body, bind-same, choose-same, option-same, comprehend-same,
  count_hits-same,
}

module _ (lib : Library) (params : Json) where
  unfoldable mutual
    unfolding reads eval truth_of

    alike : (x : Expr) (e f : Env) → Agree (reads x) e f → eval lib params x e ≡ eval lib params x f
    alike (lit l) e f h = refl
    alike (param p) e f h = refl
    alike (var v) e f h = ap (λ o. ok (or_null o)) (h v ((list_eq_iff v v).1 refl))
    alike (prop b p) e f h = bind-same _ _ _ _ (alike b e f h) (λ x. refl)
    alike (binary op l r) e f h =
        bind-same _ _ _ _ (alike l e f (Agree-left (reads l) (reads r) e f h))
          (λ x. bind-same _ _ _ _ (alike r e f (Agree-right (reads l) (reads r) e f h)) (λ y. refl))
    alike (not_expr a) e f h = bind-same _ _ _ _ (alike a e f h) (λ x. refl)
    alike (neg a) e f h = bind-same _ _ _ _ (alike a e f h) (λ x. refl)
    alike (is_null a want) e f h = bind-same _ _ _ _ (alike a e f h) (λ x. refl)
    alike (func name args distinct) e f h = bind-same _ _ _ _ (alike_any args e f h) (λ x. refl)
    alike (list xs) e f h = bind-same _ _ _ _ (alike_any xs e f h) (λ x. refl)
    alike (map_expr kv) e f h = bind-same _ _ _ _ (alike_entries kv e f _ h) (λ x. refl)
    alike (case_expr operand whens last) e f h =
        let rest =
          Agree-right (reads_maybe operand) (λ w. reads_whens whens w || reads_maybe last w) e f
            h in
        bind-same _ _ _ _
          (alike_maybe operand e f (
            Agree-left (reads_maybe operand) (λ w. reads_whens whens w || reads_maybe last w) e f
              h))
          (λ x.
            alike_whens whens x _ _ e f (Agree-left (reads_whens whens) (reads_maybe last) e f rest)
              (ap (or_null_of lib) (
                alike_maybe last e f
                  (Agree-right (reads_whens whens) (reads_maybe last) e f rest))))
    alike (list_comp v source filter project) e f h =
        let p : List ℕ → Bool = λ w. reads_maybe filter w || reads_maybe project w in
        let body = Agree-right (reads source) (λ w. not (list_eq v w) && p w) e f h in
        bind-same _ _ _ _
          (alike source e f (Agree-left (reads source) (λ w. not (list_eq v w) && p w) e f h))
          (λ s. option-same (items_of s) _ _ _ (λ xs.
            bind-same _ _ _ _
              (comprehend-same (Agree (λ w. not (list_eq v w) && p w)) v
                (λ x a b r. Agree-next v p a b x r) (eval_filter lib params filter)
                (eval_project lib params project)
                (λ x a b r. alike_filter filter (bind_var v x a) (bind_var v x b) (
                  Agree-left (reads_maybe filter) (reads_maybe project) (bind_var v x a)
                    (bind_var v x b) (Agree-body v p a b x r)))
                (λ x a b r. alike_project project (bind_var v x a) (bind_var v x b) x (
                  Agree-right (reads_maybe filter) (reads_maybe project) (bind_var v x a)
                    (bind_var v x b) (Agree-body v p a b x r)))
                xs e f body)
              (λ o. refl)))
    alike (list_pred kind v source filter) e f h =
        let body = Agree-right (reads source) (λ w. not (list_eq v w) && reads filter w) e f h in
        bind-same _ _ _ _
          (alike source e f
            (Agree-left (reads source) (λ w. not (list_eq v w) && reads filter w) e f h))
          (λ s. option-same (items_of s) _ _ _ (λ xs.
            bind-same _ _ _ _
              (count_hits-same (Agree (λ w. not (list_eq v w) && reads filter w)) v
                (λ x a b r. Agree-next v (reads filter) a b x r)
                (λ l. truth_of lib (eval lib params filter l))
                (λ x a b r. ap (truth_of lib) (
                  alike filter (bind_var v x a) (bind_var v x b)
                    (Agree-body v (reads filter) a b x r)))
                xs e f 0 body)
              (λ o. refl)))
    alike (map_projection v items) e f h =
        let same =
          ap or_null
            (Agree-left (list_eq v) (reads_items items) e f h v ((list_eq_iff v v).1 refl)) in
        bind-same _ _ _ _
          (subst
            (λ z.
              eval_items lib params (or_null (e v)) items e end
              ≡ eval_items lib params z items f end)
            same
            (alike_items items (or_null (e v)) e f end
              (Agree-right (list_eq v) (reads_items items) e f h)))
          (λ x. refl)
    alike star e f h = refl

    alike_any :
        (xs : Exprs) (e f : Env)
        → Agree (reads_any xs) e f
        → eval_all lib params xs e ≡ eval_all lib params xs f
    alike_any no_exprs e f h = refl
    alike_any (expr x xs) e f h =
        bind-same _ _ _ _ (alike x e f (Agree-left (reads x) (reads_any xs) e f h)) (λ y.
          bind-same _ _ _ _ (alike_any xs e f (Agree-right (reads x) (reads_any xs) e f h))
            (λ z. refl))

    alike_entries :
        (xs : NamedExprs) (e f : Env) (m : Members)
        → Agree (reads_entries xs) e f
        → eval_entries lib params xs e m ≡ eval_entries lib params xs f m
    alike_entries no_entries e f m h = refl
    alike_entries (entry k x xs) e f m h =
        bind-same _ _ _ _ (alike x e f (Agree-left (reads x) (reads_entries xs) e f h))
          (λ y. alike_entries xs e f _ (Agree-right (reads x) (reads_entries xs) e f h))

    alike_whens :
        (ws : Whens) (s : Option Json) (o p : Result EvalError Json) (e f : Env)
        → Agree (reads_whens ws) e f
        → o ≡ p
        → eval_whens lib params s ws o e ≡ eval_whens lib params s ws p f
    alike_whens no_whens s o p e f h same = same
    alike_whens (when c x ws) s o p e f h same =
        let rest = Agree-right (reads c) (λ w. reads x w || reads_whens ws w) e f h in
        bind-same _ _ _ _
          (alike c e f (Agree-left (reads c) (λ w. reads x w || reads_whens ws w) e f h))
          (λ y.
            choose-same (taken lib s y) _ _ _ _
              (alike x e f (Agree-left (reads x) (reads_whens ws) e f rest))
              (alike_whens ws s o p e f (Agree-right (reads x) (reads_whens ws) e f rest) same))

    alike_maybe :
        (x : MaybeExpr) (e f : Env)
        → Agree (reads_maybe x) e f
        → eval_maybe lib params x e ≡ eval_maybe lib params x f
    alike_maybe absent e f h = refl
    alike_maybe (present x) e f h = bind-same _ _ _ _ (alike x e f h) (λ y. refl)

    alike_filter :
        (x : MaybeExpr) (e f : Env)
        → Agree (reads_maybe x) e f
        → eval_filter lib params x e ≡ eval_filter lib params x f
    alike_filter absent e f h = refl
    alike_filter (present x) e f h = ap (truth_of lib) (alike x e f h)

    alike_project :
        (x : MaybeExpr) (e f : Env) (item : Json)
        → Agree (reads_maybe x) e f
        → eval_project lib params x e item ≡ eval_project lib params x f item
    alike_project absent e f item h = refl
    alike_project (present x) e f item h = alike x e f h

    alike_items :
        (xs : MapProjItems) (s : Json) (e f : Env) (m : Members)
        → Agree (reads_items xs) e f
        → eval_items lib params s xs e m ≡ eval_items lib params s xs f m
    alike_items no_items s e f m h = refl
    alike_items (prop_item p xs) s e f m h = alike_items xs s e f _ h
    alike_items (all_item xs) s e f m h = alike_items xs s e f _ h
    alike_items (entry_item k x xs) s e f m h =
        bind-same _ _ _ _ (alike x e f (Agree-left (reads x) (reads_items xs) e f h))
          (λ y. alike_items xs s e f _ (Agree-right (reads x) (reads_items xs) e f h))

-- What eval gives, error or value, depends on no other variables than those that the expression reads:
-- environments that agree on them give the same. A binder hides the variable of its name.
pub eval-Agree :
    (lib : Library) (params : Json) (x : Expr) (e f : Env)
    → Agree (reads x) e f
    → eval lib params x e ≡ eval lib params x f
eval-Agree lib params x e f h = alike lib params x e f h
