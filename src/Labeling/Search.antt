-- ===== src/Labeling/Search.antt =====
-- What `assign` of engine/src/catalog/labeling.rs appends to the rows, for each of its outcomes.
use ontological_db.Base.{
  append-nil, ℕ, zero, suc, ◌+◌, ◌≡◌, sym, ap, ◌∙◌, inl, inr, List, [], ◌∷◌, ◌++◌, append_assoc,
  some, Bool-cases, Option-cases,
}
use ontological_db.Base.Outcome.{Result, ok, err, ◌>>=◌}
use ontological_db.Labeling.{
  new_label, gap, TypeNode, Dag, Label, LabelError, Walk, find, sort, contains, close, each, assign,
}
use ontological_db.Labeling.Segments.{Segment, Segment-nil, Segment-append, Segment-node}

-- The rows appended are the stretch of the cursor that the call took.
pub data Labelled (dag : Dag) (roots : List ℕ) (w : Walk) : Result LabelError Walk → Type 0 where
  failed : (e : LabelError) → Labelled dag roots w (err e)
  done :
      {w' : Walk} (rows : List Label)
      → w'.out ≡ w.out ++ rows
      → Segment dag roots w.cursor w'.cursor rows
      → Labelled dag roots w (ok w')

module _ {dag : Dag} where
  join :
      {x : ℕ} {xs : List ℕ} {w w1 : Walk} {r : Result LabelError Walk} (us : List Label)
      → w1.out ≡ w.out ++ us
      → Segment dag (x ∷ []) w.cursor w1.cursor us
      → Labelled dag xs w1 r
      → Labelled dag (x ∷ xs) w r
  join us e s (failed x) = failed x
  join {w = w} us e s (done vs e' t) =
      done (us ++ vs) (e' ∙ ap (λ l. l ++ vs) e ∙ append_assoc w.out us vs) (Segment-append dag s t)

  Labelled-then :
      {x : ℕ} {xs : List ℕ} {w : Walk} {m : Result LabelError Walk}
      (f : Walk → Result LabelError Walk)
      → Labelled dag (x ∷ []) w m
      → ((w1 : Walk) → Labelled dag xs w1 (f w1))
      → Labelled dag (x ∷ xs) w (m >>= f)
  Labelled-then f (failed e) again = failed e
  Labelled-then f (done {w' = w1} us e s) again = join us e s (again w1)

  pub each-Labelled :
      (step : ℕ → Walk → Result LabelError Walk)
      → ((id : ℕ) (w : Walk) → Labelled dag (id ∷ []) w (step id w))
      → (ids : List ℕ) (w : Walk) → Labelled dag ids w (each step ids w)
  unfolding each
  each-Labelled step f [] w = done [] (sym (append-nil w.out)) (Segment-nil dag w.cursor)
  each-Labelled step f (id ∷ ids) w = Labelled-then _ (f id w) (each-Labelled step f ids)

  close-Labelled :
      (id depth : ℕ) {node : TypeNode} (w : Walk) {m : Result LabelError Walk}
      → find dag id ≡ some node
      → Labelled dag (sort node.children) (record w { cursor = w.cursor + gap }) m
      → Labelled dag (id ∷ []) w (m >>= λ w'. ok (close id depth w.cursor w'))
  unfolding close
  close-Labelled id depth w found (failed e) = failed e
  close-Labelled id depth w found (done {w' = w'} rows e s) =
      let row = new_label id depth w.cursor w' in
      done (rows ++ row ∷ []) (ap (λ l. l ++ row ∷ []) e ∙ append_assoc w.out rows (row ∷ []))
        (Segment-node dag row found s)

  pub assign-Labelled :
      (fuel depth : ℕ) (stack : List ℕ) (id : ℕ) (w : Walk)
      → Labelled dag (id ∷ []) w (assign fuel dag depth stack id w)
  unfolding assign
  assign-Labelled zero depth stack id w = failed _
  assign-Labelled (suc fuel) depth stack id w = elim (Bool-cases (contains stack id)) [
    | inl e ↦ rw e (failed _)
    | inr e ↦ elim (Option-cases (find dag id)) [
      | inl n ↦ rw (e, n) (failed _)
      | inr (node, found) ↦
          rw (e, found)
            (close-Labelled id depth w found (
              each-Labelled (assign fuel dag (depth + 1) (id ∷ stack))
                (assign-Labelled fuel (depth + 1) (id ∷ stack)) (sort node.children) _))
    ]
  ]
