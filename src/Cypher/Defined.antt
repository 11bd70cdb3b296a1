-- ===== src/Cypher/Defined.antt =====
-- Where the evaluator of engine/src/cypher/eval.rs gives a value.
use ontological_db.Base.{
  ℕ, suc, ◌≡◌, refl, inl, inr, Bool, true, false, ◌&&◌, ◌||◌, and-both, or-cases, Option-cases,
  if◌then◌else◌, List, Option, none, some,
}
use ontological_db.Base.Outcome.{Result, ok, err, ◌>>=◌}
use ontological_db.Session.Json.{Json, Elements, nil, cons, Members, end}
use ontological_db.Cypher.Ast.{
  Expr, Exprs, NamedExprs, Whens, MaybeExpr, MapProjItems, lit, param, var, prop, binary, not_expr,
  neg, is_null, func, list, map_expr, case_expr, list_comp, list_pred, map_projection, star,
  no_exprs, expr, no_entries, entry, no_whens, when, absent, present, no_items, prop_item, all_item,
  entry_item,
}
use ontological_db.Cypher.Eval.{Library, EvalError, Env, bind_var, or_null, Builtin, builtin}
use ontological_db.Cypher.Eval.{
  to_upper, to_lower_case, trim_text, to_string, to_integer, to_float, coalesce_all, size_of,
  abs_of, id, element_id, type_of, labels, keys, timestamp, datetime,
}
use ontological_db.Cypher.Operations.{
  items_of, comprehend, count_hits, call_builtin, call_func, truth_of, taken,
}
use ontological_db.Cypher.Evaluator.{
  eval, eval_all, eval_entries, eval_maybe, eval_whens, eval_filter, eval_project, eval_items,
}
use ontological_db.Cypher.Callable.{
  needs_no_argument, some_exprs, available, callable, callable_all, callable_entries,
  callable_whens, callable_maybe, callable_items,
}

abbrev pub IsOk : {E A : Type 0} → Result E A → Type 0
IsOk {A = A} m = (a : A) × (m ≡ ok a)

bind-IsOk :
    {E A B : Type 0} (m : Result E A) (f : A → Result E B)
    → IsOk m
    → ((a : A) → IsOk (f a))
    → IsOk (m >>= f)
bind-IsOk (ok a) f h k = k a
bind-IsOk (err e) f (a, q) k = absurd (cc q)

pub bind-ok :
    {E A B : Type 0} (m : Result E A) (f : A → Result E B) (b : B)
    → (m >>= f) ≡ ok b
    → (a : A) × (m ≡ ok a) × (f a ≡ ok b)
bind-ok (ok a) f b h = (a, refl, h)
bind-ok (err e) f b h = absurd (cc h)

choose-IsOk :
    {E A : Type 0} (b : Bool) (x y : Result E A)
    → IsOk x
    → IsOk y
    → IsOk (elim b as (λ c. Result E A) [ true ↦ x | false ↦ y ])
choose-IsOk true x y p q = p
choose-IsOk false x y p q = q

option-IsOk :
    {E A B : Type 0} (o : Option A) (x : Result E B) (f : A → Result E B)
    → IsOk x
    → ((a : A) → IsOk (f a))
    → IsOk (elim o as (λ c. Result E B) [ none ↦ x | some a ↦ f a ])
option-IsOk none x f p q = p
option-IsOk (some a) x f p q = q a

comprehend-IsOk :
    {E : Type 0} (keep : Env → Result E Bool) (project : Env → Json → Result E Json) (v : List ℕ)
    → ((e : Env) → IsOk (keep e))
    → ((e : Env) (x : Json) → IsOk (project e x))
    → (xs : Elements) (e : Env) → IsOk (comprehend keep project v xs e)
unfolding comprehend
comprehend-IsOk keep project v k p nil e = (nil, refl)
comprehend-IsOk keep project v k p (cons x xs) e =
    let rest = comprehend-IsOk keep project v k p xs (bind_var v x e) in
    bind-IsOk _ _ (k (bind_var v x e)) (λ b.
      choose-IsOk b _ _
        (bind-IsOk _ _ (p (bind_var v x e) x) (λ y. bind-IsOk _ _ rest (λ ys. (cons y ys, refl))))
        rest)

count_hits-IsOk :
    {E : Type 0} (test : Env → Result E Bool) (v : List ℕ)
    → ((e : Env) → IsOk (test e))
    → (xs : Elements) (e : Env) (n : ℕ) → IsOk (count_hits test v xs e n)
unfolding count_hits
count_hits-IsOk test v k nil e n = (n, refl)
count_hits-IsOk test v k (cons x xs) e n =
    bind-IsOk _ _ (k (bind_var v x e))
      (λ b. count_hits-IsOk test v k xs (bind_var v x e) (if b then suc n else n))

call_builtin-IsOk :
    (lib : Library) (b : Builtin) (x : Json) (xs : Elements) → IsOk (call_builtin lib b (cons x xs))
unfolding call_builtin
call_builtin-IsOk lib to_upper x xs = (_, refl)
call_builtin-IsOk lib to_lower_case x xs = (_, refl)
call_builtin-IsOk lib trim_text x xs = (_, refl)
call_builtin-IsOk lib to_string x xs = (_, refl)
call_builtin-IsOk lib to_integer x xs = (_, refl)
call_builtin-IsOk lib to_float x xs = (_, refl)
call_builtin-IsOk lib coalesce_all x xs = (_, refl)
call_builtin-IsOk lib size_of x xs = (_, refl)
call_builtin-IsOk lib abs_of x xs = (_, refl)
call_builtin-IsOk lib id x xs = (_, refl)
call_builtin-IsOk lib element_id x xs = (_, refl)
call_builtin-IsOk lib type_of x xs = (_, refl)
call_builtin-IsOk lib labels x xs = (_, refl)
call_builtin-IsOk lib keys x xs = (_, refl)
call_builtin-IsOk lib timestamp x xs = (_, refl)
call_builtin-IsOk lib datetime x xs = (_, refl)

call_builtin-nil :
    (lib : Library) (b : Builtin) → needs_no_argument b ≡ true → IsOk (call_builtin lib b nil)
unfolding call_builtin
call_builtin-nil lib coalesce_all e = (_, refl)
call_builtin-nil lib timestamp e = (_, refl)
call_builtin-nil lib datetime e = (_, refl)
call_builtin-nil lib to_upper e = absurd (cc e)
call_builtin-nil lib to_lower_case e = absurd (cc e)
call_builtin-nil lib trim_text e = absurd (cc e)
call_builtin-nil lib to_string e = absurd (cc e)
call_builtin-nil lib to_integer e = absurd (cc e)
call_builtin-nil lib to_float e = absurd (cc e)
call_builtin-nil lib size_of e = absurd (cc e)
call_builtin-nil lib abs_of e = absurd (cc e)
call_builtin-nil lib id e = absurd (cc e)
call_builtin-nil lib element_id e = absurd (cc e)
call_builtin-nil lib type_of e = absurd (cc e)
call_builtin-nil lib labels e = absurd (cc e)
call_builtin-nil lib keys e = absurd (cc e)

-- The values of the arguments of an available function.
call-IsOk :
    (lib : Library) (params : Json) (name : List ℕ) (args : Exprs) (e : Env)
    → available name args ≡ true
    → IsOk (eval_all lib params args e)
    → IsOk (eval_all lib params args e >>= call_func lib name)
unfolding available call_func eval_all eval
call-IsOk lib params name args e a (vs, q) = elim (Option-cases (builtin name)) [
  | inl n ↦ absurd (cc (rw (available, n) at a))
  | inr (b, n) ↦ rw (q, call_func, n) (found b args vs (rw (available, n) at a) q)
]
  where
    found :
        (b : Builtin) (args : Exprs) (vs : Elements)
        → (needs_no_argument b || some_exprs args) ≡ true
        → eval_all lib params args e ≡ ok vs
        → IsOk (call_builtin lib b vs)
    found b args (cons v vs) h q = call_builtin-IsOk lib b v vs
    found b no_exprs nil h q = elim (or-cases (needs_no_argument b) false h) [
      | inl k ↦ call_builtin-nil lib b k
      | inr k ↦ absurd (cc k)
    ]
    found b (expr x xs) nil h q =
        let (v, i, r) = bind-ok (eval lib params x e) _ nil q in
        let (ws, j, t) = bind-ok (eval_all lib params xs e) _ nil r in absurd (cc t)

module _ (lib : Library) (params : Json) where
  mutual
    unfolding callable eval truth_of

    pub defined : (x : Expr) (e : Env) → callable x ≡ true → IsOk (eval lib params x e)
    defined (lit l) e h = (_, refl)
    defined (param p) e h = (_, refl)
    defined (var v) e h = (_, refl)
    defined (prop b p) e h = bind-IsOk _ _ (defined b e h) (λ x. (_, refl))
    defined (binary op l r) e h =
        let (a, b) = and-both (callable l) (callable r) h in
        bind-IsOk _ _ (defined l e a) (λ x. bind-IsOk _ _ (defined r e b) (λ y. (_, refl)))
    defined (not_expr a) e h = bind-IsOk _ _ (defined a e h) (λ x. (_, refl))
    defined (neg a) e h = bind-IsOk _ _ (defined a e h) (λ x. (_, refl))
    defined (is_null a want) e h = bind-IsOk _ _ (defined a e h) (λ x. (_, refl))
    defined (func name args distinct) e h =
        let (a, b) = and-both (available name args) (callable_all args) h in
        call-IsOk lib params name args e a (defined_all args e b)
    defined (list xs) e h = bind-IsOk _ _ (defined_all xs e h) (λ x. (_, refl))
    defined (map_expr kv) e h = bind-IsOk _ _ (defined_entries kv e end h) (λ x. (_, refl))
    defined (case_expr operand whens last) e h =
        let (a, k) =
          and-both (callable_maybe operand) (callable_whens whens && callable_maybe last) h in
        let (b, c) = and-both (callable_whens whens) (callable_maybe last) k in
        bind-IsOk _ _ (defined_maybe operand e a) (λ s.
          defined_whens whens s _ e b (bind-IsOk _ _ (defined_maybe last e c) (λ x. (_, refl))))
    defined (list_comp v source filter project) e h =
        let (a, k) =
          and-both (callable source) (callable_maybe filter && callable_maybe project) h in
        let (b, c) = and-both (callable_maybe filter) (callable_maybe project) k in
        bind-IsOk _ _ (defined source e a) (λ s.
          option-IsOk (items_of s) _ _ (_, refl)
            (λ xs.
              bind-IsOk _ _
                (comprehend-IsOk (eval_filter lib params filter) (eval_project lib params project) v
                  (λ l. defined_filter filter l b) (λ l x. defined_project project l x c) xs e)
                (λ x. (_, refl))))
    defined (list_pred kind v source filter) e h =
        let (a, b) = and-both (callable source) (callable filter) h in
        bind-IsOk _ _ (defined source e a) (λ s.
          option-IsOk (items_of s) _ _ (_, refl)
            (λ xs.
              bind-IsOk _ _
                (count_hits-IsOk (λ l. truth_of lib (eval lib params filter l)) v
                  (λ l. bind-IsOk _ _ (defined filter l b) (λ x. (_, refl))) xs e 0)
                (λ x. (_, refl))))
    defined (map_projection v items) e h =
        bind-IsOk _ _ (defined_items items (or_null (e v)) e end h) (λ x. (_, refl))
    defined star e h = (_, refl)

    defined_all : (xs : Exprs) (e : Env) → callable_all xs ≡ true → IsOk (eval_all lib params xs e)
    defined_all no_exprs e h = (_, refl)
    defined_all (expr x xs) e h =
        let (a, b) = and-both (callable x) (callable_all xs) h in
        bind-IsOk _ _ (defined x e a) (λ y. bind-IsOk _ _ (defined_all xs e b) (λ z. (_, refl)))

    defined_entries :
        (xs : NamedExprs) (e : Env) (m : Members)
        → callable_entries xs ≡ true
        → IsOk (eval_entries lib params xs e m)
    defined_entries no_entries e m h = (_, refl)
    defined_entries (entry k x xs) e m h =
        let (a, b) = and-both (callable x) (callable_entries xs) h in
        bind-IsOk _ _ (defined x e a) (λ y. defined_entries xs e _ b)

    defined_whens :
        (ws : Whens) (s : Option Json) (o : Result EvalError Json) (e : Env)
        → callable_whens ws ≡ true
        → IsOk o
        → IsOk (eval_whens lib params s ws o e)
    defined_whens no_whens s o e h k = k
    defined_whens (when c x ws) s o e h k =
        let (a, i) = and-both (callable c) (callable x && callable_whens ws) h in
        let (b, d) = and-both (callable x) (callable_whens ws) i in
        bind-IsOk _ _ (defined c e a)
          (λ y. choose-IsOk (taken lib s y) _ _ (defined x e b) (defined_whens ws s o e d k))

    defined_maybe :
        (x : MaybeExpr) (e : Env) → callable_maybe x ≡ true → IsOk (eval_maybe lib params x e)
    defined_maybe absent e h = (_, refl)
    defined_maybe (present x) e h = bind-IsOk _ _ (defined x e h) (λ y. (_, refl))

    defined_filter :
        (x : MaybeExpr) (e : Env) → callable_maybe x ≡ true → IsOk (eval_filter lib params x e)
    defined_filter absent e h = (_, refl)
    defined_filter (present x) e h = bind-IsOk _ _ (defined x e h) (λ y. (_, refl))

    defined_project :
        (x : MaybeExpr) (e : Env) (item : Json)
        → callable_maybe x ≡ true
        → IsOk (eval_project lib params x e item)
    defined_project absent e item h = (_, refl)
    defined_project (present x) e item h = defined x e h

    defined_items :
        (xs : MapProjItems) (s : Json) (e : Env) (m : Members)
        → callable_items xs ≡ true
        → IsOk (eval_items lib params s xs e m)
    defined_items no_items s e m h = (_, refl)
    defined_items (prop_item p xs) s e m h = defined_items xs s e _ h
    defined_items (all_item xs) s e m h = defined_items xs s e _ h
    defined_items (entry_item k x xs) s e m h =
        let (a, b) = and-both (callable x) (callable_items xs) h in
        bind-IsOk _ _ (defined x e a) (λ y. defined_items xs s e _ b)
