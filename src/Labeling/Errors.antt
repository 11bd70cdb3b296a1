-- ===== src/Labeling/Errors.antt =====
-- The errors of `relabel_graph` in engine/src/catalog/labeling.rs, and that it ends.
use ontological_db.Base.{if◌then◌else◌}
use ontological_db.Base.{
  Option, ltb-false→le, ℕ, zero, suc, ◌+◌, ◌*◌, ◌≤◌, ◌<◌, ◌≡◌, ◌≢◌, inl, inr, List, [], ◌∷◌, ◌++◌,
  length, some, none, ltb, ◌==◌, Bool-cases, Option-cases, subst, arith,
}
use ontological_db.Base.Outcome.{Result, ok, err, ◌>>=◌}
use ontological_db.Labeling.{
  Label, TypeNode, Dag, LabelError, Walk, cycle_at, missing, cycle_in_walk, orphans, out_of_fuel,
  find, contains, sort, each, assign, walk, assign_all, relabel, root_ids, reverse,
}
use ontological_db.Labeling.Paths.{
  later, first, In, In-both, In-one, Reaches, Reaches-child, here, sort-In,
}
use ontological_db.Labeling.Reachable.{
  contains-In, keys, length-keys, find-keys, Distinct, Distinct-length,
}

-- `b` is a proper descendant of `a`.
abbrev pub Above : Dag → ℕ → ℕ → Type 0
Above dag a b =
    (node : TypeNode) × (c : ℕ) × (find dag a ≡ some node) × In c node.children × Reaches dag c b

-- The outcomes that a graph can have; running out of fuel is none of them.
pub data Sound {A : Type 0} (dag : Dag) : Result LabelError A → Type 0 where
  fine : {a : A} → Sound dag (ok a)
  cycle : {i : ℕ} → Above dag i i → Sound dag (err (cycle_at i))
  unknown : {i : ℕ} → find dag i ≡ none → Sound dag (err (missing i))
  long : Sound dag (err cycle_in_walk)
  split : Sound dag (err orphans)

module _ {dag : Dag} where
  Sound-then :
      {A B : Type 0} {m : Result LabelError A} (f : A → Result LabelError B)
      → Sound dag m
      → ((a : A) → Sound dag (f a))
      → Sound dag (m >>= f)
  Sound-then f (fine {a = a}) again = again a
  Sound-then f (cycle p) again = cycle p
  Sound-then f (unknown e) again = unknown e
  Sound-then f long again = long
  Sound-then f split again = split

  each-Sound :
      (step : ℕ → Walk → Result LabelError Walk) (ids : List ℕ)
      → ((id : ℕ) → In id ids → (w : Walk) → Sound dag (step id w))
      → (w : Walk) → Sound dag (each step ids w)
  unfolding each
  each-Sound step [] f w = fine
  each-Sound step (id ∷ ids) f w =
      Sound-then _ (f id first w) (each-Sound step ids (λ i h. f i (later h)))

  Above-child :
      (a : ℕ) {b c : ℕ} {node : TypeNode}
      → find dag b ≡ some node
      → In c node.children
      → Above dag a b
      → Above dag a c
  Above-child a found h (n, d, e, k, r) = (n, d, e, k, Reaches-child _ r found h)

  assign-Sound :
      (fuel depth : ℕ) (stack : List ℕ) (id : ℕ) (w : Walk)
      → Distinct stack
      → ((s : ℕ) → In s stack → In s (keys dag))
      → ((s : ℕ) → In s stack → Above dag s id)
      → length dag < length stack + fuel
      → Sound dag (assign fuel dag depth stack id w)
  unfolding assign Distinct
  assign-Sound zero depth stack id w d known above room =
      absurd (omega (arith, Distinct-length stack (keys dag) d known, length-keys dag))
  assign-Sound (suc fuel) depth stack id w d known above room =
      elim (Bool-cases (contains stack id)) [
        | inl e ↦ rw e (cycle (above id (contains-In stack id e)))
        | inr e ↦ elim (Option-cases (find dag id)) [
          | inl n ↦ rw (e, n) (unknown n)
          | inr (node, found) ↦
              rw (e, found)
                (Sound-then _
                  (each-Sound (assign fuel dag (depth + 1) (id ∷ stack)) (sort node.children)
                    (λ c h w1.
                      let child = sort-In c node.children h in
                      assign-Sound fuel (depth + 1) (id ∷ stack) c w1 (e, d)
                        (In-both (λ s. In s (keys dag)) {xs = id ∷ []}
                          (In-one _ (find-keys dag id node found)) known)
                        (In-both (λ s. Above dag s c) {xs = id ∷ []}
                          (In-one _ (node, c, found, child, here))
                          (λ s k. Above-child s found child (above s k)))
                        (omega arith))
                    _)
                  (λ w1. fine))
        ]
      ]

  walk-Sound :
      (fuel limit guard : ℕ) (queue ids : List ℕ)
      → guard ≤ limit
      → limit + 1 ≤ fuel + guard
      → Sound dag (walk fuel dag limit guard queue ids)
  unfolding walk
  walk-Sound zero limit guard queue ids low room = absurd (omega arith)
  walk-Sound (suc fuel) limit guard [] ids low room = fine
  walk-Sound (suc fuel) limit guard (id ∷ queue) ids low room =
      elim (Bool-cases (ltb limit (guard + 1))) [
        | inl e ↦ rw e long
        | inr e ↦
            let small = ltb-false→le limit (guard + 1) e in
            let again : (q r : List ℕ) → Sound dag (walk fuel dag limit (guard + 1) q r) =
              λ q r. walk-Sound fuel limit (guard + 1) q r small (omega arith) in
            elim (Bool-cases (contains ids id)) [
              | inl old ↦ rw (e, old) (again queue ids)
              | inr new ↦ elim (Option-cases (find dag id)) [
                | inl n ↦ rw (e, new, n) (unknown n)
                | inr (node, found) ↦
                    rw (e, new, found) (again (reverse node.children ++ queue) (id ∷ ids))
              ]
            ]
      ]

  after_walk-Sound :
      (ids : List ℕ)
      → Sound dag (
          if length ids == length dag
          then (assign_all dag (sort (root_ids dag)) >>= λ w. ok (some w.out))
          else err orphans)
  unfolding assign_all Distinct
  after_walk-Sound ids = elim (Bool-cases (length ids == length dag)) [
    | inr q ↦ rw q split
    | inl q ↦ rw q (
        Sound-then _
          (each-Sound (assign (length dag + 1) dag 0 []) (sort (root_ids dag))
            (λ id h w.
              assign-Sound (length dag + 1) 0 [] id w tt (λ s k. elim k [ ]) (λ s k. elim k [ ])
                (omega arith))
            _)
          (λ w. fine))
  ]

relabel-Sound : (dag : Dag) → Sound dag (relabel dag)
unfolding relabel
relabel-Sound [] = fine
relabel-Sound (t ∷ dag) =
    Sound-then _
      (walk-Sound (length (t ∷ dag) * 64 + 2) (length (t ∷ dag) * 64) 0
        (reverse (sort (root_ids (t ∷ dag)))) [] (omega arith) (omega arith))
      after_walk-Sound

-- `relabel_graph` ends on every graph, cyclic ones included: the calls of `assign` nest at most once
-- for each type, and the walk makes at most 64 rounds for each type.
pub relabel_ends : (dag : Dag) → relabel dag ≢ err out_of_fuel
relabel_ends dag = ends (relabel-Sound dag)
  where
    ends : {r : Result LabelError (Option (List Label))} → Sound dag r → r ≡ err out_of_fuel → ⊥
    ends fine e = absurd (cc e)
    ends (cycle p) e = absurd (cc e)
    ends (unknown n) e = absurd (cc e)
    ends long e = absurd (cc e)
    ends split e = absurd (cc e)

-- When `relabel_graph` reports an inheritance cycle at a type, the type is a proper descendant of
-- itself.
pub relabel_cycle : (dag : Dag) (i : ℕ) → relabel dag ≡ err (cycle_at i) → Above dag i i
relabel_cycle dag i = real (relabel-Sound dag)
  where
    real :
        {r : Result LabelError (Option (List Label))}
        → Sound dag r
        → r ≡ err (cycle_at i)
        → Above dag i i
    real fine e = absurd (cc e)
    real (cycle {i = j} p) e = let same : j ≡ i = cc e in subst (λ z. Above dag z z) same p
    real (unknown n) e = absurd (cc e)
    real long e = absurd (cc e)
    real split e = absurd (cc e)
