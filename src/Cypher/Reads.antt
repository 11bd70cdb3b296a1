-- ===== src/Cypher/Reads.antt =====
-- The variables that an expression of engine/src/cypher/eval.rs reads.
use ontological_db.Base.{
  ℕ, suc, ◌≡◌, refl, ap, subst, inl, inr, Bool, true, false, not, ◌&&◌, ◌||◌, or-true, Bool-cases,
  if◌then◌else◌, List, Option, none, some, list_eq,
}
use ontological_db.Base.Outcome.{Result, ok, err, ◌>>=◌}
use ontological_db.Session.Json.{Json, Elements, nil, cons}
use ontological_db.Cypher.Ast.{
  Expr, Exprs, NamedExprs, Whens, MaybeExpr, MapProjItems, lit, param, var, prop, binary, not_expr,
  neg, is_null, func, list, map_expr, case_expr, list_comp, list_pred, map_projection, star,
  no_exprs, expr, no_entries, entry, no_whens, when, absent, present, no_items, prop_item, all_item,
  entry_item,
}
use ontological_db.Cypher.Eval.{Env, bind_var}
use ontological_db.Cypher.Operations.{comprehend, count_hits}

-- The binder of a comprehension or quantifier hides a variable of its name.
unfoldable mutual
  pub reads : Expr → List ℕ → Bool
  reads (lit l) w = false
  reads (param p) w = false
  reads (var v) w = list_eq v w
  reads (prop b p) w = reads b w
  reads (binary op l r) w = reads l w || reads r w
  reads (not_expr a) w = reads a w
  reads (neg a) w = reads a w
  reads (is_null a want) w = reads a w
  reads (func name args distinct) w = reads_any args w
  reads (list xs) w = reads_any xs w
  reads (map_expr kv) w = reads_entries kv w
  reads (case_expr operand whens last) w =
      reads_maybe operand w || (reads_whens whens w || reads_maybe last w)
  reads (list_comp v source filter project) w =
      reads source w || (not (list_eq v w) && (reads_maybe filter w || reads_maybe project w))
  reads (list_pred kind v source filter) w = reads source w || (not (list_eq v w) && reads filter w)
  reads (map_projection v items) w = list_eq v w || reads_items items w
  reads star w = false

  pub reads_any : Exprs → List ℕ → Bool
  reads_any no_exprs w = false
  reads_any (expr e es) w = reads e w || reads_any es w

  pub reads_entries : NamedExprs → List ℕ → Bool
  reads_entries no_entries w = false
  reads_entries (entry k e es) w = reads e w || reads_entries es w

  pub reads_whens : Whens → List ℕ → Bool
  reads_whens no_whens w = false
  reads_whens (when c e ws) w = reads c w || (reads e w || reads_whens ws w)

  pub reads_maybe : MaybeExpr → List ℕ → Bool
  reads_maybe absent w = false
  reads_maybe (present e) w = reads e w

  pub reads_items : MapProjItems → List ℕ → Bool
  reads_items no_items w = false
  reads_items (prop_item p items) w = reads_items items w
  reads_items (all_item items) w = reads_items items w
  reads_items (entry_item k e items) w = reads e w || reads_items items w

-- Two environments that agree on some variables.
abbrev pub Agree : (List ℕ → Bool) → Env → Env → Type 0
Agree p env local = (w : List ℕ) → p w ≡ true → env w ≡ local w

pub Agree-left : (p q : List ℕ → Bool) (e f : Env) → Agree (λ w. p w || q w) e f → Agree p e f
Agree-left p q e f h w k = h w (rw k refl)

pub Agree-right : (p q : List ℕ → Bool) (e f : Env) → Agree (λ w. p w || q w) e f → Agree q e f
Agree-right p q e f h w k = h w (rw k (or-true (p w)))

-- What a loop keeps, and what its body may use.
pub Agree-next :
    (v : List ℕ) (p : List ℕ → Bool) (e f : Env) (x : Json)
    → Agree (λ w. not (list_eq v w) && p w) e f
    → Agree (λ w. not (list_eq v w) && p w) (bind_var v x e) (bind_var v x f)
Agree-next v p e f x h w k = elim (Bool-cases (list_eq v w)) [
  | inl y ↦ rw y refl
  | inr y ↦ rw y (h w k)
]

pub Agree-body :
    (v : List ℕ) (p : List ℕ → Bool) (e f : Env) (x : Json)
    → Agree (λ w. not (list_eq v w) && p w) e f
    → Agree p (bind_var v x e) (bind_var v x f)
Agree-body v p e f x h w k = elim (Bool-cases (list_eq v w)) [
  | inl y ↦ rw y refl
  | inr y ↦ rw y (h w (rw (y, k) refl))
]

pub bind-same :
    {E A B : Type 0} (m n : Result E A) (f g : A → Result E B)
    → m ≡ n
    → ((x : A) → f x ≡ g x)
    → (m >>= f) ≡ (n >>= g)
bind-same (ok a) n f g e h = subst (λ z. f a ≡ (z >>= g)) e (h a)
bind-same (err a) n f g e h = subst (λ z. err a ≡ (z >>= g)) e refl

pub choose-same :
    {A : Type 0} (b : Bool) (x y z w : A)
    → x ≡ z
    → y ≡ w
    → elim b as (λ c. A) [ true ↦ x | false ↦ y ] ≡ elim b as (λ c. A) [ true ↦ z | false ↦ w ]
choose-same true x y z w p q = p
choose-same false x y z w p q = q

pub option-same :
    {A B : Type 0} (o : Option A) (b : B) (f g : A → B)
    → ((a : A) → f a ≡ g a)
    → elim o as (λ c. B) [ none ↦ b | some a ↦ f a ]
      ≡ elim o as (λ c. B) [ none ↦ b | some a ↦ g a ]
option-same none b f g h = refl
option-same (some a) b f g h = h a

module _ {E : Type 0} (R : Env → Env → Type 0) (v : List ℕ)
    (next : (x : Json) (e f : Env) → R e f → R (bind_var v x e) (bind_var v x f)) where
  pub comprehend-same :
      (keep : Env → Result E Bool) (project : Env → Json → Result E Json)
      → ((x : Json) (e f : Env) → R e f → keep (bind_var v x e) ≡ keep (bind_var v x f))
      → ((x : Json) (e f : Env) → R e f → project (bind_var v x e) x ≡ project (bind_var v x f) x)
      → (xs : Elements) (e f : Env) → R e f
      → comprehend keep project v xs e ≡ comprehend keep project v xs f
  unfolding comprehend
  comprehend-same keep project k p nil e f r = refl
  comprehend-same keep project k p (cons x xs) e f r =
      let rest =
        comprehend-same keep project k p xs (bind_var v x e) (bind_var v x f) (next x e f r) in
      bind-same (keep (bind_var v x e)) (keep (bind_var v x f)) _ _ (k x e f r) (λ b.
        choose-same b _ _ _ _
          (bind-same (project (bind_var v x e) x) (project (bind_var v x f) x) _ _ (p x e f r)
            (λ y. ap (λ m. m >>= (λ ys. ok (cons y ys))) rest))
          rest)

  pub count_hits-same :
      (test : Env → Result E Bool)
      → ((x : Json) (e f : Env) → R e f → test (bind_var v x e) ≡ test (bind_var v x f))
      → (xs : Elements) (e f : Env) (n : ℕ) → R e f
      → count_hits test v xs e n ≡ count_hits test v xs f n
  unfolding count_hits
  count_hits-same test k nil e f n r = refl
  count_hits-same test k (cons x xs) e f n r =
      bind-same (test (bind_var v x e)) (test (bind_var v x f)) _ _ (k x e f r) (λ b.
        count_hits-same test k xs (bind_var v x e) (bind_var v x f) (if b then suc n else n)
          (next x e f r))
