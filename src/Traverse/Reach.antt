-- ===== src/Traverse/Reach.antt =====
-- What `og_reach` of engine/src/storage/traverse.rs finds: the invariant of its levels.
use ontological_db.Base.{
  ℕ, zero, suc, ◌≡◌, ◌≢◌, ◌≤◌, ◌<◌, ◌↔◌, refl, sym, subst, ◌⊎◌, inl, inr, true, Bool-cases, leb,
  leb→le, List, [], arith,
}
use ontological_db.Base.Int.{ℤ}
use ontological_db.Base.Members.{In, In-cases}
use ontological_db.Traverse.Heap.{Search, at_least, steps}
use ontological_db.Traverse.Steps.{Grown, Grown-steps}
use ontological_db.Traverse.Levels.{Walk, here, further, Consistent, steps-Consistent, at_least-suc}

module _ (Edge : ℕ → ℕ → Type 0) (nbrs : List ℕ → List ℕ)
    (scans : (f : List ℕ) (n : ℕ) → In n (nbrs f) ↔ ((m : ℕ) × In m f × Edge m n)) (src : ℕ)
    (minhop : ℤ) where
  abbrev Reached : ℕ → ℕ → Type 0
  Reached = Walk Edge src

  -- A node within a distance.
  abbrev Nearer : ℕ → ℕ → Type 0
  Nearer n k = (j : ℕ) × (j < k) × Reached n j

  -- The search when `k` levels are done.
  pub record Done (k : ℕ) (s : Search) : Type 0 where
    pub consistent : Consistent src minhop k s
    pub to_visited : (n j : ℕ) → Reached n j → j ≤ k → In n s.visited
    pub sound :
        (n d : ℕ)
        → In (n, d) s.out
        → Reached n d
          × (d ≤ k)
          × (at_least d minhop ≡ true)
          × (n ≢ src → (j : ℕ) → Reached n j → d ≤ j)
    pub complete :
        at_least 1 minhop ≡ true
        → (n j : ℕ) → Reached n j
        → j ≤ k
        → at_least j minhop ≡ true
        → (d : ℕ) × (d ≤ j) × In (n, d) s.out

  -- The nodes at exactly this distance are in the frontier.
  pub record Frontier (k : ℕ) (frontier : List ℕ) (s : Search) : Type 0 where
    pub at_distance : (n : ℕ) → In n frontier → Reached n k
    pub old : (n : ℕ) → In n s.visited → In n frontier ⊎ Nearer n k

  Nearer-visited :
      {k : ℕ} {frontier : List ℕ} {s : Search}
      → Frontier k frontier s
      → (n : ℕ) → In n s.visited
      → Nearer n (suc k)
  Nearer-visited {k} f n h = elim (f.old n h) [
    | inl a ↦ (k, omega arith, f.at_distance n a)
    | inr (j, l, w) ↦ (j, omega arith, w)
  ]

  -- The last step of a walk leaves the frontier, or there is a shorter walk.
  last_step :
      {k : ℕ} {frontier : List ℕ} {s : Search} {n : ℕ}
      → Done k s
      → Frontier k frontier s
      → Reached n (suc k)
      → In n (nbrs frontier) ⊎ ((i : ℕ) × (suc i ≤ k) × Reached n (suc i))
  last_step {k} {frontier} {s} {n} c f (further {m = m} w e) =
      elim (f.old m (c.to_visited m k w (omega arith))) [
        | inl a ↦ inl ((scans frontier n).1 (m, a, e))
        | inr (j, l, v) ↦ inr (j, l, further v e)
      ]

  module _ {k : ℕ} {frontier : List ℕ} {s : Search} (c : Done k s) (f : Frontier k frontier s) where
    abbrev pub after : Search
    after = steps src minhop (suc k) (nbrs frontier) (record s { next = [] })

    grown : Grown src minhop (suc k) (nbrs frontier) (record s { next = [] }) after
    grown = Grown-steps src minhop (suc k) (nbrs frontier) (record s { next = [] })

    reached : (n : ℕ) → In n (nbrs frontier) → Reached n (suc k)
    reached n h = let (m, a, e) = (scans frontier n).0 h in further (f.at_distance m a) e

    first_here : (n : ℕ) → (In n s.visited → ⊥) → (j : ℕ) → Reached n j → suc k ≤ j
    first_here n new j w = elim (Bool-cases (leb j k)) [
      | inl e ↦ absurd (new (c.to_visited n j w (leb→le j k e)))
      | inr e ↦ ground arith
    ]

    pub next-Frontier : Frontier (suc k) after.next after
    next-Frontier = record {
      at_distance = λ n h. elim (grown.found n h) [ inl a ↦ elim a [ ] | inr (b, _) ↦ reached n b ];
      old = λ n h. elim (grown.seen n h) [
        | inl a ↦ inr (Nearer-visited f n a)
        | inr b ↦ elim (In-cases n s.visited) [
          | inl a ↦ inr (Nearer-visited f n a)
          | inr new ↦ inl (grown.finds n b new)
        ]
      ];
    }

    next-Consistent : Consistent src minhop (suc k) after
    next-Consistent =
        let o = c.consistent in
        steps-Consistent src minhop (suc k) (nbrs frontier) (record s { next = [] })
          (record {
            distinct = o.distinct;
            out_seen = o.out_seen;
            src_done = o.src_done;
            done_src = λ h. let (d, l, p) = o.done_src h in (d, omega arith, p);
            home = o.home;
          })

    to_visited_next : (n j : ℕ) → Reached n j → j ≤ suc k → In n after.visited
    to_visited_next n j w l = elim (Bool-cases (leb j k)) [
      | inl e ↦ grown.keeps n (c.to_visited n j w (leb→le j k e))
      | inr e ↦
          let q : j ≡ suc k = ground arith in
          elim (last_step c f (subst (Reached n) q w)) [
            | inl b ↦ grown.adds n b
            | inr (i, m, v) ↦ grown.keeps n (c.to_visited n (suc i) v m)
          ]
    ]

    sound_next :
        (n d : ℕ)
        → In (n, d) after.out
        → Reached n d
          × (d ≤ suc k)
          × (at_least d minhop ≡ true)
          × (n ≢ src → (j : ℕ) → Reached n j → d ≤ j)
    sound_next n d h = elim (grown.reports n d h) [
      | inl a ↦ let (w, l, m, least) = c.sound n d a in (w, omega arith, m, least)
      | inr (e, late, b, how) ↦ (
        subst (Reached n) (sym e) (reached n b),
        omega arith,
        subst (λ x. at_least x minhop ≡ true) (sym e) late,
        λ away j w. elim how [
          | inl new ↦ let l = first_here n new j w in omega arith
          | inr home ↦ absurd (away home)
        ],
      )
    ]

    -- A node that a walk of the next length leads to.
    complete_last :
        at_least 1 minhop ≡ true
        → (n : ℕ) → Reached n (suc k)
        → (d : ℕ) × (d ≤ suc k) × In (n, d) after.out
    complete_last low n w = elim (last_step c f w) [
      | inr (i, l, v) ↦
          let (d, m, p) = c.complete low n (suc i) v l (at_least-suc i minhop low) in
          (d, omega arith, grown.out_keeps (n, d) p)
      | inl b ↦ elim (In-cases n s.visited) [
        | inr new ↦ (suc k, omega arith, grown.outs n (at_least-suc k minhop low) b new)
        | inl a ↦ nearer n (Nearer-visited f n a) b
      ]
    ]
      where
        at_source : {m : ℕ} → Reached m 0 → m ≡ src
        at_source here = refl

        back :
            (m : ℕ) → m ≡ src → In m (nbrs frontier) → (d : ℕ) × (d ≤ suc k) × In (m, d) after.out
        back m e b =
            let done =
              grown.done_sets (at_least-suc k minhop low)
                (subst (λ (x : ℕ). In x (nbrs frontier)) e b) c.consistent.home in
            let (d, l, p) = next-Consistent.done_src done in
            (d, l, subst (λ (x : ℕ). In (x, d) after.out) (sym e) p)

        nearer :
            (m : ℕ)
            → Nearer m (suc k)
            → In m (nbrs frontier)
            → (d : ℕ) × (d ≤ suc k) × In (m, d) after.out
        nearer m (zero, l, v) b = back m (at_source v) b
        nearer m (suc j, l, v) b =
            let (d, q, p) = c.complete low m (suc j) v (omega arith) (at_least-suc j minhop low) in
            (d, omega arith, grown.out_keeps (m, d) p)

    pub next-Done : Done (suc k) after
    next-Done = record {
      consistent = next-Consistent;
      to_visited = to_visited_next;
      sound = sound_next;
      complete = λ low n j w l m. elim (Bool-cases (leb j k)) [
        | inl e ↦
            let (d, q, p) = c.complete low n j w (leb→le j k e) m in
            (d, q, grown.out_keeps (n, d) p)
        | inr e ↦
            let q : j ≡ suc k = ground arith in
            let (d, r, p) = complete_last low n (subst (Reached n) q w) in (d, omega arith, p)
      ];
    }
