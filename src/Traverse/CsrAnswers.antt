-- ===== src/Traverse/CsrAnswers.antt =====
-- `og_csr_reach` of engine/src/storage/traverse.rs on a graph that `compile` built, against the walks
-- along the rows of og_data.og_adj and against `og_reach`.
use ontological_db.Base.{
  ℕ, zero, suc, ◌+◌, ◌/◌, ◌≡◌, ◌<◌, ◌↔◌, sym, ap, ◌∙◌, subst, inl, inr, true, List, [], ◌∷◌, Option,
  some, map, length, get_or, All, arith,
}
use ontological_db.Base.Int.{ℤ}
use ontological_db.Base.Members.{In, first, later, In-append, In-append_left, In-append_right}
use ontological_db.Traverse.Heap.{Direction, at_least, rounds, levels, start}
use ontological_db.Traverse.Steps.{In-front}
use ontological_db.Traverse.Levels.{Walk, here, further}
use ontological_db.Traverse.Search.{Answer, search-Answer}
use ontological_db.Traverse.Answers.{Least, reported_iff}
use ontological_db.Traverse.Compressed.{Adj, of, pack}
use ontological_db.Traverse.Counting.{From}
use ontological_db.Traverse.Packing.{of-pack}
use ontological_db.Traverse.Csr.{Picked, ids_of, index_of, place_of, edges_of}
use ontological_db.Traverse.CsrReach.{csr_reach, csr_start}
use ontological_db.Traverse.Simulation.{around, named, csr_levels-Sim, start-Sim}
use ontological_db.Traverse.Positions.{
  index_of_at, index_of-place_of, Arc, Arc-In, In-edges_of, edges_of-In, In-targets,
}

In-around :
    (fwd : Adj) (f : List ℕ) (q : ℕ) → In q (around fwd f) ↔ ((p : ℕ) × In p f × In q (of fwd p))
unfolding around
In-around fwd [] q = (λ h. elim h [ ], λ h. let (p, i, k) = h in elim i [ ])
In-around fwd (x ∷ f) q =
    let (to, from) = In-around fwd f q in
    (
      λ h. elim (In-append q (of fwd x) (around fwd f) h) [
        | inl a ↦ (x, first, a)
        | inr b ↦ let (p, i, k) = to b in (p, later i, k)
      ],
      λ h.
          let (p, i, k) = h in
          elim (In-front i) [
            | inl e ↦ In-append_left q (of fwd x) (around fwd f) (rw e at k)
            | inr j ↦ In-append_right q (of fwd x) (around fwd f) (from (p, j, k))
          ],
    )

All-In : {n : ℕ} (xs : List ℕ) → ((x : ℕ) → In x xs → x < n) → All (λ x. x < n) xs
All-In [] h = tt
All-In (x ∷ xs) h = (h x first, All-In xs (λ y k. h y (later k)))

In-All : {n : ℕ} (xs : List ℕ) (x : ℕ) → All (λ y. y < n) xs → In x xs → x < n
In-All [] x h k = elim k [ ]
In-All (y ∷ xs) x (h, hs) k = elim (In-front k) [ inl e ↦ rw e h | inr l ↦ In-All xs x hs l ]

From-In : (n : ℕ) (es : List (ℕ × ℕ)) → ((s t : ℕ) → In {A = ℕ × ℕ} (s, t) es → s < n) → From n es
From-In n [] h = tt
From-In n ((s, t) ∷ es) h = (h s t first, From-In n es (λ a b k. h a b (later k)))

module _ (rows : List Picked) (want : Direction) where
  abbrev ids : List ℕ
  ids = ids_of rows

  abbrev pub edges : List (ℕ × ℕ)
  edges = edges_of ids want rows

  abbrev pub fwd : Adj
  fwd = pack (length ids) edges

  -- An id stands at a position.
  abbrev At : ℕ → ℕ → Type 0
  At p x = index_of ids x ≡ some p

  abbrev Hop : ℕ → ℕ → Type 0
  Hop p q = In q (of fwd p)

  pub edges-From : From (length ids) edges
  edges-From = From-In (length ids) edges (λ s t h.
      let (m, n, a, e, f) = In-edges_of ids want rows s t h in
      let (i, j) = Arc-In rows want m n a in
      rw e (index_of_at ids m (place_of ids m) (index_of-place_of ids m i)).0)

  -- A hop leads from the position of an id to that of another, along an arc.
  Hop-Arc : (p q x : ℕ) → At p x → Hop p q → (y : ℕ) × At q y × Arc rows want x y
  Hop-Arc p q x a h =
      let (l, g) = index_of_at ids x p a in
      let k = subst (λ (z : List ℕ). In q z) (of-pack (length ids) edges p edges-From l) h in
      let (m, n, arc, e, f) = In-edges_of ids want rows p q ((In-targets p q edges).0 k) in
      let (i, j) = Arc-In rows want m n arc in
      let same : m ≡ x =
        sym (index_of_at ids m p (rw (sym e) at (index_of-place_of ids m i))).1 ∙ g in
      (
        n,
        index_of-place_of ids n j ∙ ap some (sym f),
        subst (λ (z : ℕ). Arc rows want z n) same arc,
      )

  Arc-Hop : (x y p : ℕ) → At p x → Arc rows want x y → (q : ℕ) × At q y × Hop p q
  Arc-Hop x y p a arc =
      let (i, j) = Arc-In rows want x y arc in
      let same : p ≡ place_of ids x = cc (a, index_of-place_of ids x i) in
      let (l, g) = index_of_at ids x p a in
      (
        place_of ids y,
        index_of-place_of ids y j,
        rw (of-pack (length ids) edges p edges-From l)
            ((In-targets p (place_of ids y) edges).1 (rw same (edges_of-In ids want rows x y arc))),
      )

  -- Walks over positions are walks over ids.
  pub Hop-Walk :
      (src home : ℕ)
      → At home src
      → (p k : ℕ) → Walk Hop home p k
      → (x : ℕ) × At p x × Walk (Arc rows want) src x k
  Hop-Walk src home a p zero here = (src, a, here)
  Hop-Walk src home a p (suc k) (further {m = m} w h) =
      let (x, b, v) = Hop-Walk src home a m k w in
      let (y, c, arc) = Hop-Arc m p x b h in (y, c, further v arc)

  pub Walk-Hop :
      (src home : ℕ)
      → At home src
      → (x k : ℕ) → Walk (Arc rows want) src x k
      → (p : ℕ) × At p x × Walk Hop home p k
  Walk-Hop src home a x zero here = (home, a, here)
  Walk-Hop src home a x (suc k) (further {m = m} w arc) =
      let (p, b, v) = Walk-Hop src home a m k w in
      let (q, c, h) = Arc-Hop m x p b arc in (q, c, further v h)

pub Walk-map :
    {E F : ℕ → ℕ → Type 0} {src : ℕ}
    → ((m n : ℕ) → E m n → F m n)
    → {x k : ℕ} → Walk E src x k
    → Walk F src x k
Walk-map f here = here
Walk-map f (further {m = m} {n = n} w e) = further (Walk-map f w) (f m n e)

module _ (rows : List Picked) (want : Direction) (src home : ℕ)
    (at_home : index_of (ids_of rows) src ≡ some home) (minhop maxhop : ℤ) where
  abbrev positions : List (ℕ × ℕ)
  positions =
      levels home minhop (around (fwd rows want)) (rounds maxhop) 1 (home ∷ []) (start home minhop)

  home_lt : home < length (ids rows want)
  home_lt = (index_of_at (ids_of rows) src home at_home).0

  closed :
      (ps : List ℕ)
      → All (λ j. j < length (ids rows want)) ps
      → All (λ j. j < length (ids rows want)) (around (fwd rows want) ps)
  closed ps h = All-In (around (fwd rows want) ps) (λ q k.
      let (p, i, hop) = (In-around (fwd rows want) ps q).0 k in
      let l = In-All ps p h i in
      let t =
        subst (λ (z : List ℕ). In q z)
          (of-pack (length (ids rows want)) (edges rows want) p (edges-From rows want) l) hop in
      let (m, n, arc, e, f) =
        In-edges_of (ids_of rows) want rows p q ((In-targets p q (edges rows want)).0 t) in
      rw f
        (index_of_at (ids_of rows) n (place_of (ids_of rows) n)
          (index_of-place_of (ids_of rows) n (Arc-In rows want m n arc).1)).0)

  -- What is reported are the positions that the search over them reports, named.
  csr_reach-positions :
      (key : Direction × Option (List ℕ)) (rev : Adj)
      → csr_reach src minhop maxhop
          (record { key = key; ids = ids rows want; fwd = fwd rows want; rev = rev })
        ≡ map (named (ids rows want)) positions
  unfolding csr_reach
  csr_reach-positions key rev =
      rw (csr_reach, at_home)
        (csr_levels-Sim (ids_of rows) src home minhop size at_src (fwd rows want) closed
          (rounds maxhop) 1 (home ∷ []) (csr_start (ids_of rows) src home minhop words)
          (start home minhop) (home_lt, tt)
          (start-Sim (ids_of rows) src home minhop size at_src home_lt words (omega arith)))
    where
      size : ℕ
      size = length (ids rows want)

      words : ℕ
      words = (size + 63) / 64

      at_src : get_or (ids rows want) home 0 ≡ src
      at_src = (index_of_at (ids_of rows) src home at_home).1

  position-Answer :
      Answer
        (Hop rows want)
        (around (fwd rows want))
        (In-around (fwd rows want))
        home
        minhop
        (rounds maxhop)
        positions
  position-Answer =
      search-Answer (Hop rows want) (around (fwd rows want)) (In-around (fwd rows want)) home minhop
        (rounds maxhop)

  -- The pairs reported, in terms of positions.
  In-named :
      (ps : List (ℕ × ℕ)) (x d : ℕ)
      → In {A = ℕ × ℕ} (x, d) (map (named (ids rows want)) ps)
      → (p : ℕ) × In {A = ℕ × ℕ} (p, d) ps × (get_or (ids rows want) p 0 ≡ x)
  In-named [] x d h = elim h [ ]
  In-named ((p, e) ∷ ps) x d h = elim (In-front h) [
    | inl q ↦ (
      p,
      subst (λ (z : ℕ). In {A = ℕ × ℕ} (p, d) ((p, z) ∷ ps)) (ap (λ (y : ℕ × ℕ). y.1) q) first,
      sym (ap (λ (y : ℕ × ℕ). y.0) q),
    )
    | inr k ↦ let (r, i, g) = In-named ps x d k in (r, later i, g)
  ]

  named-In :
      (ps : List (ℕ × ℕ)) (p d : ℕ)
      → In {A = ℕ × ℕ} (p, d) ps
      → In {A = ℕ × ℕ} (get_or (ids rows want) p 0, d) (map (named (ids rows want)) ps)
  named-In [] p d h = elim h [ ]
  named-In ((q, e) ∷ ps) p d h = elim (In-front h) [
    | inl r ↦ rw (ap (λ (y : ℕ × ℕ). y.0) r, ap (λ (y : ℕ × ℕ). y.1) r) first
    | inr k ↦ later (named-In ps p d k)
  ]

  -- A pair is reported if and only if a least walk leads there.
  pub csr_reach_iff :
      (key : Direction × Option (List ℕ)) (rev : Adj)
      → at_least 1 minhop ≡ true
      → (x d : ℕ)
      → In {A = ℕ × ℕ}
          (x, d)
          (csr_reach src minhop maxhop
            (record { key = key; ids = ids rows want; fwd = fwd rows want; rev = rev }))
        ↔ Least (Walk (Arc rows want) src) minhop maxhop x d
  csr_reach_iff key rev low x d = rw (csr_reach-positions key rev) (
    λ h.
        let (p, i, g) = In-named positions x d h in
        let (w, l, m, least) = (reported p d).0 i in
        let (y, a, v) = Hop-Walk rows want src home at_home p d w in
        let same : y ≡ x = sym (index_of_at (ids_of rows) y p a).1 ∙ g in
        (
          subst (λ (z : ℕ). Walk (Arc rows want) src z d) same v,
          l,
          m,
          λ j u n.
              let (q, b, t) = Walk-Hop rows want src home at_home x j u in
              let at_x : index_of (ids_of rows) x ≡ some p = rw same at a in
              let place : q ≡ p = cc (b, at_x) in
              least j (subst (λ (z : ℕ). Walk (Hop rows want) home z j) place t) n,
        ),
    λ h.
        let (w, l, m, least) = h in
        let (p, a, v) = Walk-Hop rows want src home at_home x d w in
        let i = (reported p d).1 (
          v,
          l,
          m,
          λ j u n.
              let (y, b, t) = Hop-Walk rows want src home at_home p j u in
              let same : y ≡ x =
                sym (index_of_at (ids_of rows) y p b).1 ∙ (index_of_at (ids_of rows) x p a).1 in
              least j (subst (λ (z : ℕ). Walk (Arc rows want) src z j) same t) n,
        ) in
        subst (λ (z : ℕ). In {A = ℕ × ℕ} (z, d) (map (named (ids rows want)) positions))
          (index_of_at (ids_of rows) x p a).1 (named-In positions p d i),
  )
    where
      reported :
          (p d : ℕ)
          → In {A = ℕ × ℕ} (p, d) positions ↔ Least (Walk (Hop rows want) home) minhop maxhop p d
      reported =
          reported_iff (Hop rows want) (around (fwd rows want)) (In-around (fwd rows want)) home
            minhop maxhop positions low position-Answer
