-- ===== src/Labeling/Subtypes.antt =====
-- `relabel_graph` and `og_is_subtype` of engine/src/catalog/labeling.rs: the intervals answer
-- exactly the questions of inheritance.
use ontological_db.Base.{
  subst, ℕ, ◌+◌, ◌≡◌, ◌↔◌, sym, ◌∙◌, inl, inr, List, [], ◌∷◌, Option, length, some, none, true,
  ◌==◌, ==_iff, Bool-cases,
}
use ontological_db.Base.{if◌then◌else◌}
use ontological_db.Base.Outcome.{Result, ok, err, ◌>>=◌}
use ontological_db.Labeling.{
  assign, orphans, reverse, Dag, Label, LabelError, Walk, sort, root_ids, assign_all, relabel,
  is_subtype,
}
use ontological_db.Labeling.Paths.{here, reverse-In, In, Reaches}
use ontological_db.Labeling.Segments.{Segment}
use ontological_db.Labeling.Queries.{is_subtype-Segment}
use ontological_db.Labeling.Search
use ontological_db.Labeling.Walks
use ontological_db.Labeling.Search.{each-Labelled, Labelled, assign-Labelled}
use ontological_db.Labeling.Reachable.{keys, length-keys, Distinct-all}
use ontological_db.Labeling.Walks.{Walked, Met, walk-Walked, Below, Met-nil}

-- What comes of `relabel_graph`.
data Relabelled (dag : Dag) : Result LabelError (Option (List Label)) → Type 0 where
  failed : (e : LabelError) → Relabelled dag (err e)
  kept : Relabelled dag (ok none)
  replaced :
      {c : ℕ} {rows : List Label}
      → Segment dag (sort (root_ids dag)) 1 c rows
      → ((id : ℕ) → In id (keys dag) → Below dag (sort (root_ids dag)) id)
      → Relabelled dag (ok (some rows))

module _ {dag : Dag} where
  assigned :
      {m : Result LabelError Walk}
      → ((id : ℕ) → In id (keys dag) → Below dag (sort (root_ids dag)) id)
      → Labelled dag (sort (root_ids dag)) (record { cursor = 1; path_counter = []; out = [] }) m
      → Relabelled dag (m >>= λ w. ok (some w.out))
  assigned all (Search.failed e) = failed e
  assigned all (Search.done {w' = w'} rows e s) =
      subst (λ l. Relabelled dag (ok (some l))) (sym e) (replaced s all)

  after_walk :
      {r : Result LabelError (List ℕ)}
      → Walked dag (sort (root_ids dag)) r
      → Relabelled dag (
          r >>= λ reachable.
          if length reachable == length dag
          then (assign_all dag (sort (root_ids dag)) >>= λ w. ok (some w.out))
          else err orphans)
  unfolding assign_all
  after_walk (Walks.failed e) = failed e
  after_walk (Walks.done {ids = ids} m) = elim (Bool-cases (length ids == length dag)) [
    | inr q ↦ rw q (failed _)
    | inl q ↦
        let same : length ids ≡ length (keys dag) = (==_iff _ _).0 q ∙ sym (length-keys dag) in
        let all : (id : ℕ) → In id (keys dag) → Below dag (sort (root_ids dag)) id =
          λ id h. m.below id (Distinct-all ids (keys dag) m.once m.known same id h) in
        rw q (
          assigned all (
            each-Labelled (assign (length dag + 1) dag 0 []) (assign-Labelled (length dag + 1) 0 [])
              (sort (root_ids dag)) _))
  ]

relabel-Relabelled : (dag : Dag) → Relabelled dag (relabel dag)
unfolding relabel
relabel-Relabelled [] = kept
relabel-Relabelled (t ∷ dag) = after_walk (
    walk-Walked _ _ _ (reverse (sort (root_ids (t ∷ dag)))) []
      (λ id h. (id, reverse-In _ id h, here)) Met-nil)

-- The rows are those of the stretch of the cursor from 1 on, and every type lies below a root.
pub relabel_rows :
    (dag : Dag) (rows : List Label)
    → relabel dag ≡ ok (some rows)
    → (c : ℕ) × Segment dag (sort (root_ids dag)) 1 c rows
      × ((id : ℕ) → In id (keys dag) → Below dag (sort (root_ids dag)) id)
relabel_rows dag rows e = parts (subst (Relabelled dag) e (relabel-Relabelled dag))
  where
    parts :
        Relabelled dag (ok (some rows))
        → (c : ℕ) × Segment dag (sort (root_ids dag)) 1 c rows
          × ((id : ℕ) → In id (keys dag) → Below dag (sort (root_ids dag)) id)
    parts (replaced {c = c} s all) = (c, s, all)

-- Once `relabel_graph` has replaced the labels of a graph, `og_is_subtype` says of two types, the
-- upper one a type of the graph, whether a path of inheritance leads from the upper one down to the
-- lower one, however many parents the types have.
pub is_subtype_iff :
    (dag : Dag) (rows : List Label) (sub sup : ℕ)
    → relabel dag ≡ ok (some rows)
    → In sup (keys dag)
    → (is_subtype rows sub sup ≡ true) ↔ Reaches dag sup sub
is_subtype_iff dag rows sub sup e h =
    let (c, s, all) = relabel_rows dag rows e in is_subtype-Segment sub sup s (all sup h)
