-- ===== src/Traverse/Scanned.antt =====
-- What one level of the bidirectional search of engine/src/storage/traverse.rs does to the distances.
use ontological_db.Base.{
  ℕ, zero, suc, ◌+◌, ◌≡◌, ◌≢◌, ◌≤◌, ◌<◌, ◌↔◌, refl, ap, ◌∙◌, ◌⊎◌, inl, inr, Option-cases, List, [],
  ◌∷◌, Option, none, some, length, set, arith,
}
use ontological_db.Base.Members.{In}
use ontological_db.Traverse.Hops.{hop_at, Level}

pub length-set : (xs : List (Option ℕ)) (i : ℕ) (v : Option ℕ) → length (set xs i v) ≡ length xs
length-set [] i v = refl
length-set (x ∷ xs) zero v = refl
length-set (x ∷ xs) (suc i) v = ap suc (length-set xs i v)

pub hop_at-set :
    (xs : List (Option ℕ)) (i : ℕ) (v : Option ℕ) → i < length xs → hop_at (set xs i v) i ≡ v
hop_at-set [] i v h = absurd (omega arith)
hop_at-set (x ∷ xs) zero v h = refl
hop_at-set (x ∷ xs) (suc i) v h = hop_at-set xs i v (omega arith)

pub hop_at-set_other :
    (xs : List (Option ℕ)) (i j : ℕ) (v : Option ℕ) → i ≢ j → hop_at (set xs i v) j ≡ hop_at xs j
hop_at-set_other [] i j v h = refl
hop_at-set_other (x ∷ xs) zero zero v h = absurd (h refl)
hop_at-set_other (x ∷ xs) zero (suc j) v h = refl
hop_at-set_other (x ∷ xs) (suc i) zero v h = refl
hop_at-set_other (x ∷ xs) (suc i) (suc j) v h = hop_at-set_other xs i j v (λ e. h (ap suc e))

module _ (far : List (Option ℕ)) (d : ℕ) where
  -- A stretch of a level in which the touched neighbours are those with a property; `d` is their
  -- distance if they are new.
  pub record Scanned (P : ℕ → Type 0) (s t : Level) : Type 0 where
    pub kept : (x k : ℕ) → hop_at s.near x ≡ some k → hop_at t.near x ≡ some k
    pub seen : (x : ℕ) → P x → (k : ℕ) × (hop_at t.near x ≡ some k)
    pub origin :
        (x k : ℕ)
        → hop_at t.near x ≡ some k
        → (hop_at s.near x ≡ some k) ⊎ ((hop_at s.near x ≡ none) × P x × (k ≡ d))
    pub next_kept : (x : ℕ) → In x s.next → In x t.next
    pub next_new : (x : ℕ) → hop_at s.near x ≡ none → P x → In x t.next
    pub next_from : (x : ℕ) → In x t.next → In x s.next ⊎ ((hop_at s.near x ≡ none) × P x)
    pub best_down : t.best ≤ s.best
    pub best_meet :
        (x i j : ℕ) → P x → hop_at t.near x ≡ some i → hop_at far x ≡ some j → t.best ≤ i + j
    pub best_from :
        (t.best ≡ s.best)
        ⊎ ((x : ℕ) × (i : ℕ) × (j : ℕ) × (hop_at t.near x ≡ some i)
            × (hop_at far x ≡ some j)
            × (t.best ≡ i + j))
    pub size : length t.near ≡ length s.near

  pub Scanned-nothing : (s : Level) → Scanned (λ x. ⊥) s s
  Scanned-nothing s = record {
    kept = λ x k e. e;
    seen = λ x p. absurd p;
    origin = λ x k e. inl e;
    next_kept = λ x h. h;
    next_new = λ x e p. absurd p;
    next_from = λ x h. inl h;
    best_down = omega arith;
    best_meet = λ x i j p. absurd p;
    best_from = inl refl;
    size = refl;
  }

  pub Scanned-after :
      (P Q : ℕ → Type 0) (s t u : Level)
      → Scanned P s t
      → Scanned Q t u
      → Scanned (λ x. P x ⊎ Q x) s u
  Scanned-after P Q s t u a b = record {
    kept = λ x k e. b.kept x k (a.kept x k e);
    seen =
        λ x h. elim h [ inl p ↦ let (k, e) = a.seen x p in (k, b.kept x k e) | inr q ↦ b.seen x q ];
    origin = λ x k e. elim (b.origin x k e) [
      | inl f ↦ elim (a.origin x k f) [
        | inl g ↦ inl g
        | inr h ↦ let (n, p, q) = h in inr (n, inl p, q)
      ]
      | inr h ↦ let (n, p, q) = h in inr (unseen x n, inr p, q)
    ];
    next_kept = λ x h. b.next_kept x (a.next_kept x h);
    next_new = λ x n h. elim h [
      | inl p ↦ b.next_kept x (a.next_new x n p)
      | inr q ↦ elim (Option-cases (hop_at t.near x)) [
        | inl m ↦ b.next_new x m q
        | inr (k, e) ↦ elim (a.origin x k e) [
          | inl f ↦ absurd (cc (n, f))
          | inr (m, p, g) ↦ b.next_kept x (a.next_new x n p)
        ]
      ]
    ];
    next_from = λ x h. elim (b.next_from x h) [
      | inl k ↦ elim (a.next_from x k) [ inl l ↦ inl l | inr l ↦ let (n, p) = l in inr (n, inl p) ]
      | inr k ↦ let (n, q) = k in inr (unseen x n, inr q)
    ];
    best_down = let l = a.best_down in let m = b.best_down in omega arith;
    best_meet = λ x i j h e f. elim h [
      | inl p ↦
          let (k, g) = a.seen x p in
          let r : k ≡ i = cc (b.kept x k g, e) in
          let l = a.best_meet x k j p g f in let m = b.best_down in omega arith
      | inr q ↦ b.best_meet x i j q e f
    ];
    best_from = elim b.best_from [
      | inl e ↦ elim a.best_from [
        | inl f ↦ inl (e ∙ f)
        | inr h ↦ let (x, i, j, f, g, k) = h in inr (x, i, j, b.kept x i f, g, e ∙ k)
      ]
      | inr h ↦ inr h
    ];
    size = b.size ∙ a.size;
  }
    where
      unseen : (x : ℕ) → hop_at t.near x ≡ none → hop_at s.near x ≡ none
      unseen x n = elim (Option-cases (hop_at s.near x)) [
        | inl e ↦ e
        | inr (k, e) ↦ let g = a.kept x k e in absurd (cc (g, n))
      ]

  pub Scanned-same :
      (P Q : ℕ → Type 0) (s t : Level) → ((x : ℕ) → P x ↔ Q x) → Scanned P s t → Scanned Q s t
  Scanned-same P Q s t f a = record {
    kept = a.kept;
    seen = λ x q. a.seen x ((f x).1 q);
    origin = λ x k e. elim (a.origin x k e) [
      | inl g ↦ inl g
      | inr h ↦ let (n, p, q) = h in inr (n, (f x).0 p, q)
    ];
    next_kept = a.next_kept;
    next_new = λ x n q. a.next_new x n ((f x).1 q);
    next_from = λ x h. elim (a.next_from x h) [
      | inl k ↦ inl k
      | inr k ↦ let (n, p) = k in inr (n, (f x).0 p)
    ];
    best_down = a.best_down;
    best_meet = λ x i j q. a.best_meet x i j ((f x).1 q);
    best_from = a.best_from;
    size = a.size;
  }
