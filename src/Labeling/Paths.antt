-- ===== src/Labeling/Paths.antt =====
-- Membership, and the paths of the inheritance graph of engine/src/catalog/labeling.rs.
use ontological_db.Base.{
  sym, subst, ℕ, ◌≡◌, refl, ◌⊎◌, inl, inr, List, [], ◌∷◌, some, leb, Bool-cases,
}
use mathlib.Core.List.{reverse_aux}
use ontological_db.Labeling.{reverse, TypeNode, Dag, find, sort, insert_sorted}
pub use ontological_db.Base.Members.{
  In, first, later, In-append, In-append_left, In-append_right, In-both, In-one, In-snoc, In-under,
}

In-swap : {x y z : ℕ} {xs : List ℕ} → In x (y ∷ z ∷ xs) → In x (z ∷ y ∷ xs)
In-swap first = later first
In-swap (later first) = first
In-swap (later (later h)) = later (later h)

insert_sorted-cases :
    (y z : ℕ) (ys : List ℕ)
    → (insert_sorted y (z ∷ ys) ≡ y ∷ z ∷ ys) ⊎ (insert_sorted y (z ∷ ys) ≡ z ∷ insert_sorted y ys)
unfolding insert_sorted
insert_sorted-cases y z ys = elim (Bool-cases (leb y z)) [
  | inl e ↦ inl (rw e refl)
  | inr e ↦ inr (rw e refl)
]

In-insert_sorted : (x y : ℕ) (ys : List ℕ) → In x (y ∷ ys) → In x (insert_sorted y ys)
unfolding insert_sorted
In-insert_sorted x y [] h = h
In-insert_sorted x y (z ∷ ys) h =
    let again = In-insert_sorted x y ys in
    elim (insert_sorted-cases y z ys) [
      | inl e ↦ subst (In x) (sym e) h
      | inr e ↦ subst (In x) (sym e) (In-under again (In-swap h))
    ]

insert_sorted-In : (x y : ℕ) (ys : List ℕ) → In x (insert_sorted y ys) → In x (y ∷ ys)
unfolding insert_sorted
insert_sorted-In x y [] h = h
insert_sorted-In x y (z ∷ ys) h =
    let again = insert_sorted-In x y ys in
    elim (insert_sorted-cases y z ys) [
      | inl e ↦ subst (In x) e h
      | inr e ↦ In-swap (In-under again (subst (In x) e h))
    ]

pub In-sort : (x : ℕ) (xs : List ℕ) → In x xs → In x (sort xs)
unfolding sort
In-sort x [] h = h
In-sort x (y ∷ xs) h = In-insert_sorted x y (sort xs) (In-under (In-sort x xs) h)

pub sort-In : (x : ℕ) (xs : List ℕ) → In x (sort xs) → In x xs
unfolding sort
sort-In x [] h = h
sort-In x (y ∷ xs) h = In-under (sort-In x xs) (insert_sorted-In x y (sort xs) h)

-- `Reaches dag a b`: a path of inheritance leads from `a` down to `b`; a type reaches itself.
pub data Reaches (dag : Dag) : ℕ → ℕ → Type 0 where
  here : {a : ℕ} → Reaches dag a a
  down :
      {a c b : ℕ} (node : TypeNode)
      → find dag a ≡ some node
      → In c node.children
      → Reaches dag c b
      → Reaches dag a b

pub Reaches-child :
    {dag : Dag} {a b c : ℕ} (node : TypeNode)
    → Reaches dag a b
    → find dag b ≡ some node
    → In c node.children
    → Reaches dag a c
Reaches-child node here e h = down node e h here
Reaches-child node (down n q k r) e h = down n q k (Reaches-child node r e h)

reverse_aux-In {ℓ} :
    {A : Type ℓ} (xs ys : List A) (x : A) → In x (reverse_aux xs ys) → In x xs ⊎ In x ys
reverse_aux-In [] ys x h = inr h
reverse_aux-In (y ∷ xs) ys x h = elim (reverse_aux-In xs (y ∷ ys) x h) [
  | inl k ↦ inl (later k)
  | inr k ↦ elim (In-append x (y ∷ []) ys k) [
    | inl m ↦ inl (In-one (λ z. In z (y ∷ xs)) first x m)
    | inr m ↦ inr m
  ]
]

pub reverse-In {ℓ} : {A : Type ℓ} (xs : List A) (x : A) → In x (reverse xs) → In x xs
reverse-In xs x h = elim (reverse_aux-In xs [] x h) [ inl k ↦ k | inr k ↦ elim k [ ] ]
