-- ===== src/Labeling/Loading.antt =====
-- `load_dag` of engine/src/catalog/labeling.rs: the graph holds what the rows of the catalog say.
use ontological_db.Labeling.Reachable.{In-cases}
use ontological_db.Base.{
  true, false, ℕ, ◌≡◌, refl, sym, ap, ◌∙◌, inl, inr, List, [], ◌∷◌, ◌++◌, append_assoc, append-nil,
  map, some, ◌==◌, if◌then◌else◌, Bool-cases, arith,
}
use ontological_db.Labeling.{
  TypeNode, Dag, find, new_node, push_child, push_parent, update, link, load_dag,
}
use mathlib.Core.Option.{some-injective}
use ontological_db.Labeling.Paths.{In}

-- The children that the rows (child, parent) give to `p`, and the parents that they give to `c`.
pub children_in : List (ℕ × ℕ) → ℕ → List ℕ
children_in [] p = []
children_in ((child, parent) ∷ rows) p =
    let rest = children_in rows p in if parent == p then child ∷ rest else rest

pub parents_in : List (ℕ × ℕ) → ℕ → List ℕ
parents_in [] c = []
parents_in ((child, parent) ∷ rows) c =
    let rest = parents_in rows c in if child == c then parent ∷ rest else rest

find_hit :
    (k id : ℕ) (m : TypeNode) (dag : Dag) → (k == id) ≡ true → find ((k, m) ∷ dag) id ≡ some m
unfolding find
find_hit k id m dag h = rw h refl

find_miss :
    (k id : ℕ) (m : TypeNode) (dag : Dag) → (k == id) ≡ false → find ((k, m) ∷ dag) id ≡ find dag id
unfolding find
find_miss k id m dag h = rw h refl

module _ (key : ℕ) (f : TypeNode → TypeNode) where
  update_hit :
      (k : ℕ) (m : TypeNode) (dag : Dag)
      → (k == key) ≡ true
      → update key f ((k, m) ∷ dag) ≡ (k, f m) ∷ dag
  unfolding update
  update_hit k m dag h = rw h refl

  update_miss :
      (k : ℕ) (m : TypeNode) (dag : Dag)
      → (k == key) ≡ false
      → update key f ((k, m) ∷ dag) ≡ (k, m) ∷ update key f dag
  unfolding update
  update_miss k m dag h = rw h refl

  find-update :
      (id : ℕ) (dag : Dag) (n : TypeNode)
      → find dag id ≡ some n
      → find (update key f dag) id ≡ some (if key == id then f n else n)
  unfolding find
  find-update id [] n e = absurd (cc e)
  find-update id ((k, m) ∷ dag) n e =
      let again = find-update id dag n in
      elim (Bool-cases (k == key)) [
        | inl h ↦ elim (Bool-cases (k == id)) [
          | inl q ↦
              let same : m ≡ n = some-injective m n (sym (find_hit k id m dag q) ∙ e) in
              let hit : (key == id) ≡ true = ground arith in
              rw (update_hit k m dag h, find_hit k id (f m) dag q, hit) (ap (λ z. some (f z)) same)
          | inr q ↦
              let miss : (key == id) ≡ false = ground arith in
              rw (update_hit k m dag h, find_miss k id (f m) dag q, miss)
                (sym (find_miss k id m dag q) ∙ e)
        ]
        | inr h ↦ elim (Bool-cases (k == id)) [
          | inl q ↦
              let miss : (key == id) ≡ false = ground arith in
              rw (update_miss k m dag h, find_hit k id m (update key f dag) q, miss)
                (sym (find_hit k id m dag q) ∙ e)
          | inr q ↦
              rw (update_miss k m dag h, find_miss k id m (update key f dag) q)
                (again (sym (find_miss k id m dag q) ∙ e))
        ]
      ]

-- The node of `id` after the row (child, parent).
abbrev linked : ℕ → ℕ → ℕ → TypeNode → TypeNode
linked child parent id n =
    let n1 = if parent == id then push_child child n else n in
    if child == id then push_parent parent n1 else n1

children-linked :
    (child parent id : ℕ) (n : TypeNode) (rows : List (ℕ × ℕ))
    → (linked child parent id n).children ++ children_in rows id
      ≡ n.children ++ children_in ((child, parent) ∷ rows) id
unfolding children_in
children-linked child parent id n rows = elim (Bool-cases (child == id)) [
  | inl h ↦ elim (Bool-cases (parent == id)) [
    | inl q ↦ rw (h, q) (append_assoc n.children (child ∷ []) (children_in rows id))
    | inr q ↦ rw (h, q) refl
  ]
  | inr h ↦ elim (Bool-cases (parent == id)) [
    | inl q ↦ rw (h, q) (append_assoc n.children (child ∷ []) (children_in rows id))
    | inr q ↦ rw (h, q) refl
  ]
]

parents-linked :
    (child parent id : ℕ) (n : TypeNode) (rows : List (ℕ × ℕ))
    → (linked child parent id n).parents ++ parents_in rows id
      ≡ n.parents ++ parents_in ((child, parent) ∷ rows) id
unfolding parents_in
parents-linked child parent id n rows = elim (Bool-cases (parent == id)) [
  | inl h ↦ elim (Bool-cases (child == id)) [
    | inl q ↦ rw (h, q) (append_assoc n.parents (parent ∷ []) (parents_in rows id))
    | inr q ↦ rw (h, q) refl
  ]
  | inr h ↦ elim (Bool-cases (child == id)) [
    | inl q ↦ rw (h, q) (append_assoc n.parents (parent ∷ []) (parents_in rows id))
    | inr q ↦ rw (h, q) refl
  ]
]

find-link :
    (id : ℕ) (rows : List (ℕ × ℕ)) (dag : Dag) (n : TypeNode)
    → find dag id ≡ some n
    → (m : TypeNode) × (find (link dag rows) id ≡ some m)
      × (m.children ≡ n.children ++ children_in rows id)
      × (m.parents ≡ n.parents ++ parents_in rows id)
unfolding link children_in parents_in
find-link id [] dag n e = (n, e, sym (append-nil n.children), sym (append-nil n.parents))
find-link id ((child, parent) ∷ rows) dag n e =
    let dag1 = update parent (push_child child) dag in
    let n1 = if parent == id then push_child child n else n in
    let e1 = find-update parent (push_child child) id dag n e in
    let e2 = find-update child (push_parent parent) id dag1 n1 e1 in
    let (m, q, c, p) =
      find-link id rows (update child (push_parent parent) dag1) (linked child parent id n) e2 in
    (m, q, c ∙ children-linked child parent id n rows, p ∙ parents-linked child parent id n rows)

find-new_node :
    (types : List ℕ) (id : ℕ)
    → In id types
    → find (map new_node types) id ≡ some (record { children = []; parents = [] })
unfolding find
find-new_node [] id h = elim h [ ]
find-new_node (t ∷ types) id h =
    let again = find-new_node types id in
    elim (Bool-cases (t == id)) [
      | inl q ↦ rw q refl
      | inr q ↦ elim (In-cases h) [ inl e ↦ absurd (grind (arith, e, q)) | inr k ↦ rw q (again k) ]
    ]

-- The graph that `load_dag` builds has a node for every type it is given, whose children and parents
-- are those that the rows of og_catalog.type_parent name, in the order of the rows.
pub find-load_dag :
    (types : List ℕ) (rows : List (ℕ × ℕ)) (id : ℕ)
    → In id types
    → (m : TypeNode) × (find (load_dag types rows) id ≡ some m)
      × (m.children ≡ children_in rows id)
      × (m.parents ≡ parents_in rows id)
unfolding load_dag
find-load_dag types rows id h = find-link id rows (map new_node types) _ (find-new_node types id h)
