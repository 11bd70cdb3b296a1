-- ===== src/Labeling/Walks.antt =====
-- What the walk from the roots reaches, for `relabel_graph` of engine/src/catalog/labeling.rs.
use ontological_db.Base.{
  ℕ, zero, suc, ◌+◌, ◌≡◌, inl, inr, List, [], ◌∷◌, ◌++◌, some, false, ltb, Bool-cases, Option-cases,
}
use ontological_db.Base.Outcome.{Result, ok, err}
use ontological_db.Labeling.{TypeNode, Dag, LabelError, find, contains, walk}
use ontological_db.Labeling.Paths.{
  In-one, first, later, In, In-both, Reaches, Reaches-child, reverse-In,
}
use ontological_db.Labeling.Reachable.{keys, find-keys, Distinct}
use mathlib.Core.List.{reverse}

-- `id` lies below one of the roots.
abbrev pub Below : Dag → List ℕ → ℕ → Type 0
Below dag roots id = (x : ℕ) × In x roots × Reaches dag x id

-- Ids met once each, that are types of the graph and lie below a root.
pub record Met (dag : Dag) (roots ids : List ℕ) : Type 0 where
  pub once : Distinct ids
  pub known : (id : ℕ) → In id ids → In id (keys dag)
  pub below : (id : ℕ) → In id ids → Below dag roots id

pub data Walked (dag : Dag) (roots : List ℕ) : Result LabelError (List ℕ) → Type 0 where
  failed : (e : LabelError) → Walked dag roots (err e)
  done : {ids : List ℕ} → Met dag roots ids → Walked dag roots (ok ids)

pub Met-nil : {dag : Dag} {roots : List ℕ} → Met dag roots []
unfolding Distinct
Met-nil = record { once = tt; known = λ id h. elim h [ ]; below = λ id h. elim h [ ] }

module _ {dag : Dag} {roots : List ℕ} where
  Met-next :
      {id : ℕ} {node : TypeNode} {ids : List ℕ}
      → Met dag roots ids
      → contains ids id ≡ false
      → find dag id ≡ some node
      → Below dag roots id
      → Met dag roots (id ∷ ids)
  unfolding Distinct
  Met-next {id} {node} {ids} m new found b = record {
    once = (new, m.once);
    known =
        In-both (λ i. In i (keys dag)) {xs = id ∷ []} (In-one _ (find-keys dag id node found))
          m.known;
    below = In-both (Below dag roots) {xs = id ∷ []} (In-one _ b) m.below;
  }

  pub walk-Walked :
      (fuel limit guard : ℕ) (queue ids : List ℕ)
      → ((id : ℕ) → In id queue → Below dag roots id)
      → Met dag roots ids
      → Walked dag roots (walk fuel dag limit guard queue ids)
  unfolding walk
  walk-Walked zero limit guard queue ids q m = failed _
  walk-Walked (suc fuel) limit guard [] ids q m = done m
  walk-Walked (suc fuel) limit guard (id ∷ queue) ids q m =
      let skip = walk-Walked fuel limit (guard + 1) queue ids (λ i h. q i (later h)) m in
      elim (Bool-cases (ltb limit (guard + 1))) [
        | inl e ↦ rw e (failed _)
        | inr e ↦ elim (Bool-cases (contains ids id)) [
          | inl old ↦ rw (e, old) skip
          | inr new ↦ elim (Option-cases (find dag id)) [
            | inl n ↦ rw (e, new, n) (failed _)
            | inr (node, found) ↦
                rw (e, new, found)
                  (walk-Walked fuel limit (guard + 1) (reverse node.children ++ queue) (id ∷ ids)
                    (In-both (Below dag roots)
                      (λ i h.
                        let (x, k, r) = q id first in
                        (x, k, Reaches-child node r found (reverse-In node.children i h)))
                      (λ i h. q i (later h)))
                    (Met-next m new found (q id first)))
          ]
        ]
      ]
