-- ===== src/Traverse/Picks.antt =====
-- The rows that `compile` of engine/src/storage/traverse.rs picks, against those that og_reach scans.
use ontological_db.Base.{
  ℕ, ◌≡◌, ◌↔◌, refl, sym, ap, ◌∙◌, inl, inr, true, Bool-cases, Option-cases, and-both, or-true,
  ◌||◌, ◌==◌, List, [], ◌∷◌, Option,
}
use ontological_db.Base.Members.{In, first, later}
use ontological_db.Traverse.Heap.{
  Direction, outgoing, incoming, both, Row, of_types, adj_where, flatten, segment,
}
use ontological_db.Traverse.Steps.{In-front}
use ontological_db.Traverse.Answers.{Linked}
use ontological_db.Traverse.Csr.{Picked, pick, is_wanted}
use ontological_db.Traverse.Positions.{Arc}

wanted_iff :
    (want : Direction) (etypes : Option (List ℕ)) (row : Row)
    → adj_where both etypes row ≡ true
    → (is_wanted want row.dir ≡ true) ↔ (adj_where want etypes row ≡ true)
unfolding adj_where
wanted_iff both etypes row h = (λ e. h, λ e. refl)
wanted_iff outgoing etypes row h =
    let (a, b) = and-both (row.dir == 111 || row.dir == 105) (of_types etypes row.etype) h in
    (λ e. rw (e, b) refl, λ e. (and-both (row.dir == 111) (of_types etypes row.etype) e).0)
wanted_iff incoming etypes row h =
    let (a, b) = and-both (row.dir == 111 || row.dir == 105) (of_types etypes row.etype) h in
    (λ e. rw (e, b) refl, λ e. (and-both (row.dir == 105) (of_types etypes row.etype) e).0)

adj_where_both :
    (want : Direction) (etypes : Option (List ℕ)) (row : Row)
    → adj_where want etypes row ≡ true
    → adj_where both etypes row ≡ true
unfolding adj_where
adj_where_both both etypes row h = h
adj_where_both outgoing etypes row h =
    let (a, b) = and-both (row.dir == 111) (of_types etypes row.etype) h in rw (a, b) refl
adj_where_both incoming etypes row h =
    let (a, b) = and-both (row.dir == 105) (of_types etypes row.etype) h in
    rw (a, b, or-true (row.dir == 111)) refl

-- The picked rows are the rows of the table of either direction, with their segments.
In-pick :
    (table : List Row) (etypes : Option (List ℕ)) (p : Picked)
    → In p (pick table etypes)
    → (row : Row) × In row table
      × (adj_where both etypes row ≡ true)
      × (row.src ≡ p.src)
      × (row.dir ≡ p.dir)
      × (segment row.nbr ≡ p.seg)
unfolding pick
In-pick [] etypes p h = elim h [ ]
In-pick (row ∷ table) etypes p h = elim (Bool-cases (adj_where both etypes row)) [
  | inr e ↦ wider (In-pick table etypes p (rw (pick, e) at h))
  | inl e ↦ elim (Option-cases row.nbr) [
    | inl n ↦ wider (In-pick table etypes p (rw (pick, e, n) at h))
    | inr (seg, n) ↦ elim (In-front (rw (pick, e, n) at h)) [
      | inr k ↦ wider (In-pick table etypes p k)
      | inl q ↦ (
        row,
        first,
        e,
        sym (ap (λ (x : Picked). x.src) q),
        sym (ap (λ (x : Picked). x.dir) q),
        rw n (sym (ap (λ (x : Picked). x.seg) q)),
      )
    ]
  ]
]
  where
    wider :
        (r : Row) × In r table
          × (adj_where both etypes r ≡ true)
          × (r.src ≡ p.src)
          × (r.dir ≡ p.dir)
          × (segment r.nbr ≡ p.seg)
        → (r : Row) × In r (row ∷ table)
          × (adj_where both etypes r ≡ true)
          × (r.src ≡ p.src)
          × (r.dir ≡ p.dir)
          × (segment r.nbr ≡ p.seg)
    wider (r, k, a, b, c, d) = (r, later k, a, b, c, d)

pick_later :
    (row : Row) (table : List Row) (etypes : Option (List ℕ)) (p : Picked)
    → In p (pick table etypes)
    → In p (pick (row ∷ table) etypes)
unfolding pick
pick_later row table etypes p h = elim (Bool-cases (adj_where both etypes row)) [
  | inr e ↦ rw (pick, e) h
  | inl e ↦ elim (Option-cases row.nbr) [
    | inl n ↦ rw (pick, e, n) h
    | inr (seg, n) ↦ rw (pick, e, n) (later h)
  ]
]

pick-In :
    (table : List Row) (etypes : Option (List ℕ)) (row : Row) (n : ℕ)
    → In row table
    → adj_where both etypes row ≡ true
    → In n (segment row.nbr)
    → (p : Picked) × In p (pick table etypes) × (row.src ≡ p.src) × (row.dir ≡ p.dir) × In n p.seg
unfolding pick
pick-In [] etypes row n h e i = elim h [ ]
pick-In (r ∷ table) etypes row n (later h) e i =
    let (p, k, a, b, j) = pick-In table etypes row n h e i in
    (p, pick_later r table etypes p k, a, b, j)
pick-In (r ∷ table) etypes row n first e i = elim (Option-cases row.nbr) [
  | inl m ↦ elim (rw m at i) [ ]
  | inr (seg, m) ↦ (
    record { src = row.src; dir = row.dir; seg = flatten seg },
    rw (pick, e, m) first,
    refl,
    refl,
    rw m at i,
  )
]

pub Linked-Arc :
    (table : List Row) (etypes : Option (List ℕ)) (want : Direction) (m n : ℕ)
    → Arc (pick table etypes) want m n ↔ Linked table want etypes m n
Linked-Arc table etypes want m n = (
  λ a.
      let (p, h, w, e, i) = a in
      let (row, k, b, s, d, g) = In-pick table etypes p h in
      (row, k, s ∙ e, (wanted_iff want etypes row b).0 (rw d w), rw g i),
  λ l.
      let (row, k, s, a, i) = l in
      let b = adj_where_both want etypes row a in
      let (p, h, s', d, j) = pick-In table etypes row n k b i in
      (p, h, rw d at ((wanted_iff want etypes row b).1 a), sym s' ∙ s, j),
)
