-- ===== src/Labeling/Reachable.antt =====
-- The walk from the roots in `relabel_graph` of engine/src/catalog/labeling.rs.
use ontological_db.Base.{if◌then◌else◌}
use ontological_db.Base.{
  ==_iff, subst, ℕ, suc, ◌≤◌, ◌≡◌, ◌≢◌, refl, sym, ap, ◌⊎◌, inl, inr, List, [], ◌∷◌, length, arith,
  some, true, false, ◌==◌, Bool-cases,
}
use ontological_db.Labeling.{TypeNode, Dag, find, contains}
use ontological_db.Labeling.Paths.{In, first, later}

-- The ids of the types of the graph.
unfoldable pub keys : Dag → List ℕ
keys [] = []
keys ((id, node) ∷ dag) = id ∷ keys dag

pub length-keys : (dag : Dag) → length (keys dag) ≡ length dag
unfolding keys
length-keys [] = refl
length-keys (t ∷ dag) = ap suc (length-keys dag)

pub find-keys : (dag : Dag) (id : ℕ) (node : TypeNode) → find dag id ≡ some node → In id (keys dag)
unfolding find keys
find-keys [] id node e = absurd (cc e)
find-keys ((k, n) ∷ dag) id node e =
    let again = find-keys dag id node in
    elim (Bool-cases (k == id)) [
      | inl q ↦ subst (λ z. In id (z ∷ keys dag)) (sym ((==_iff k id).0 q)) first
      | inr q ↦ later (again (subst (λ b. (if b then some n else find dag id) ≡ some node) q e))
    ]

pub contains-In : (xs : List ℕ) (id : ℕ) → contains xs id ≡ true → In id xs
unfolding contains
contains-In [] id e = absurd (cc e)
contains-In (x ∷ xs) id e =
    let again = contains-In xs id in
    elim (Bool-cases (x == id)) [
      | inl q ↦ subst (λ z. In id (z ∷ xs)) (sym ((==_iff x id).0 q)) first
      | inr q ↦ later (again (subst (λ b. (if b then true else contains xs id) ≡ true) q e))
    ]

pub In-cases : {x y : ℕ} {ys : List ℕ} → In x (y ∷ ys) → (x ≡ y) ⊎ In x ys
In-cases first = inl refl
In-cases (later h) = inr h

In-contains : (xs : List ℕ) (id : ℕ) → In id xs → contains xs id ≡ true
unfolding contains
In-contains [] id h = elim h [ ]
In-contains (x ∷ xs) id h =
    let again = In-contains xs id in
    elim (Bool-cases (x == id)) [
      | inl q ↦ rw q refl
      | inr q ↦ elim (In-cases h) [ inl e ↦ absurd (grind (arith, e, q)) | inr k ↦ rw q (again k) ]
    ]

unfoldable pub Distinct : List ℕ → Type 0
Distinct [] = Unit
Distinct (x ∷ xs) = (contains xs x ≡ false) × Distinct xs

-- A member can be taken out, and what differs from it stays.
take_out :
    {y : ℕ} {ys : List ℕ}
    → In y ys
    → (zs : List ℕ) × (length ys ≡ suc (length zs)) × ((x : ℕ) → In x ys → x ≢ y → In x zs)
take_out (first {xs = xs}) =
    (xs, refl, λ x h ne. elim (In-cases h) [ inl e ↦ absurd (ne e) | inr k ↦ k ])
take_out (later {y = z} {xs = xs} h) =
    let (zs, e, f) = take_out h in
    (
      z ∷ zs,
      ap suc e,
      λ x k ne. elim (In-cases k) [
        | inl q ↦ subst (λ v. In v (z ∷ zs)) (sym q) first
        | inr m ↦ later (f x m ne)
      ],
    )

pub Distinct-length :
    (xs ys : List ℕ) → Distinct xs → ((x : ℕ) → In x xs → In x ys) → length xs ≤ length ys
unfolding Distinct
Distinct-length [] ys d f = omega arith
Distinct-length (x ∷ xs) ys (new, d) f =
    let (zs, e, g) = take_out (f x first) in
    let shorter = Distinct-length xs zs d (λ z h.
      g z (f z (later h)) (λ q. absurd (cc (new, In-contains xs x (subst (λ v. In v xs) q h))))) in
    omega (arith, shorter, e)

-- Distinct members of a list, as many as the list is long, are all that it has.
pub Distinct-all :
    (xs ys : List ℕ)
    → Distinct xs
    → ((x : ℕ) → In x xs → In x ys)
    → length xs ≡ length ys
    → (y : ℕ) → In y ys
    → In y xs
unfolding Distinct
Distinct-all xs ys d f e y h = elim (Bool-cases (contains xs y)) [
  | inl q ↦ contains-In xs y q
  | inr q ↦ absurd (
      omega (
        arith,
        e,
        Distinct-length (y ∷ xs) ys (q, d)
            (λ z k. elim (In-cases k) [ inl p ↦ subst (λ v. In v ys) (sym p) h | inr m ↦ f z m ]),
      ))
]
