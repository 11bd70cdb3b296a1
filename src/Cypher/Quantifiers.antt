-- ===== src/Cypher/Quantifiers.antt =====
-- The quantifiers of engine/src/cypher/eval.rs.
use ontological_db.Base.{
  ℕ, suc, ◌+◌, ◌≡◌, refl, ap, Bool, true, false, not, ◌==◌, ltb, if◌then◌else◌, List, Option, none,
  some, arith,
}
use ontological_db.Base.Outcome.{Result, ok, err, ◌>>=◌}
use ontological_db.Session.Json.{Json, Elements, nil, cons, bool}
use ontological_db.Cypher.Ast.{Expr, not_expr, list_pred, any, all_of, none_of}
use ontological_db.Cypher.Eval.{Library, EvalError, Env, bind_var, count_elements, truthy}
use ontological_db.Cypher.Operations.{items_of, count_hits, truth_of}
use ontological_db.Cypher.Evaluator.{eval}
use ontological_db.Cypher.Reads.{bind-same, option-same}

module _ {E : Type 0} (test opposite : Env → Result E Bool)
    (turned : (l : Env) → opposite l ≡ (test l >>= (λ b. ok (not b)))) (v : List ℕ) where
  -- No hits of a test are as many hits of its opposite as there are items.
  count_hits-opposite :
      (xs : Elements) (e : Env) (n m total : ℕ)
      → n + m + count_elements xs ≡ total
      → (count_hits test v xs e n >>= (λ k. ok (bool (k == 0))))
        ≡ (count_hits opposite v xs e m >>= (λ k. ok (bool (k == total))))
  unfolding count_hits
  count_hits-opposite nil e n m total h = ap (λ b. ok (bool b)) (same n m total (omega arith))
    where
      same : (n m total : ℕ) → n + m ≡ total → (n == 0) ≡ (m == total)
      same n m total h = ground arith
  count_hits-opposite (cons x xs) e n m total h =
      split (test (bind_var v x e)) (opposite (bind_var v x e)) (turned (bind_var v x e))
        (count_hits-opposite xs (bind_var v x e) (suc n) m total (omega arith))
        (count_hits-opposite xs (bind_var v x e) n (suc m) total (omega arith))
    where
      split :
          (r o : Result E Bool)
          → o ≡ (r >>= (λ b. ok (not b)))
          → ((count_hits test v xs (bind_var v x e) (suc n) >>= (λ k. ok (bool (k == 0))))
              ≡ (count_hits opposite v xs (bind_var v x e) m >>= (λ k. ok (bool (k == total)))))
          → ((count_hits test v xs (bind_var v x e) n >>= (λ k. ok (bool (k == 0)))) ≡ (
              count_hits opposite v xs (bind_var v x e) (suc m) >>= (λ k. ok (bool (k == total)))))
          → ((r >>= (λ b. count_hits test v xs (bind_var v x e) (if b then suc n else n)))
              >>= (λ k. ok (bool (k == 0))))
            ≡ ((o >>= (λ b. count_hits opposite v xs (bind_var v x e) (if b then suc m else m)))
                >>= (λ k. ok (bool (k == total))))
      split (ok true) o q a b = rw q a
      split (ok false) o q a b = rw q b
      split (err c) o q a b = rw q refl

module _ (lib : Library) where
  truth_of-not :
      (r : Result EvalError Json)
      → truth_of lib (r >>= (λ v. ok (bool (not (truthy lib v)))))
        ≡ (truth_of lib r >>= (λ b. ok (not b)))
  unfolding truth_of truthy
  truth_of-not (ok v) = refl
  truth_of-not (err e) = refl

  -- What NOT makes of a result.
  abbrev denied : Result EvalError Json → Result EvalError Json
  denied r = r >>= (λ v. ok (bool (not (truthy lib v))))

  denied-hits :
      (m : Result EvalError ℕ)
      → (m >>= (λ k. ok (bool (ltb 0 k)))) ≡ denied (m >>= (λ k. ok (bool (k == 0))))
  unfolding truthy
  denied-hits (ok k) = ap (λ b. ok (bool b)) (same k)
    where
      same : (k : ℕ) → ltb 0 k ≡ not (k == 0)
      same k = ground arith
  denied-hits (err e) = refl

  denied-items :
      (r : Result EvalError Json) (f g : Elements → Result EvalError Json)
      → ((xs : Elements) → f xs ≡ denied (g xs))
      → (r >>= (λ s. elim (items_of s) as (λ c. Result EvalError Json) [
        | none ↦ ok (bool false)
        | some xs ↦ f xs
      ]))
        ≡ denied (
            r >>= (λ s. elim (items_of s) as (λ c. Result EvalError Json) [
              | none ↦ ok (bool true)
              | some xs ↦ g xs
            ]))
  unfolding truthy
  denied-items (err e) f g h = refl
  denied-items (ok s) f g h = split (items_of s)
    where
      split :
          (o : Option Elements)
          → elim o as (λ c. Result EvalError Json) [ none ↦ ok (bool false) | some xs ↦ f xs ]
            ≡ denied
                (elim o as (λ c. Result EvalError Json) [ none ↦ ok (bool true) | some xs ↦ g xs ])
      split none = refl
      split (some xs) = h xs

-- none(x IN l WHERE p) gives what all(x IN l WHERE NOT p) gives, and any(x IN l WHERE p) what
-- NOT none(x IN l WHERE p) gives, errors included, and if l is not a list.
pub eval_quantifiers :
    (lib : Library) (params : Json) (v : List ℕ) (source filter : Expr) (e : Env)
    → (eval lib params (list_pred none_of v source filter) e
        ≡ eval lib params (list_pred all_of v source (not_expr filter)) e)
      × (eval lib params (list_pred any v source filter) e
          ≡ eval lib params (not_expr (list_pred none_of v source filter)) e)
unfolding eval
eval_quantifiers lib params v source filter e = (
  bind-same (eval lib params source e) (eval lib params source e) _ _ refl (λ s.
      option-same (items_of s) _ _ _ (λ xs.
        count_hits-opposite (λ l. truth_of lib (eval lib params filter l))
          (λ l. truth_of lib (eval lib params (not_expr filter) l))
          (λ l. truth_of-not lib (eval lib params filter l)) v xs e 0 0 (count_elements xs)
          (omega arith))),
  denied-items lib (eval lib params source e) _ _
      (λ xs. denied-hits lib (count_hits (λ l. truth_of lib (eval lib params filter l)) v xs e 0)),
)
