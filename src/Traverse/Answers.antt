-- ===== src/Traverse/Answers.antt =====
-- `og_reach` of engine/src/storage/traverse.rs, against the walks along the rows of og_data.og_adj.
use ontological_db.Base.{
  ℕ, ◌≡◌, ◌≢◌, ◌≤◌, ◌↔◌, refl, sym, ap, ◌∙◌, subst, inl, inr, Bool, true, false, Bool-cases,
  and-both, ◌&&◌, if◌then◌else◌, List, [], ◌∷◌, ◌++◌, Option, leb, leb→le, arith,
}
use ontological_db.Base.Int.{ℤ}
use ontological_db.Base.Outcome.{ok}
use ontological_db.Base.Members.{
  In, first, later, In-append, In-append_left, In-append_right, member, member-In, In-member,
}
use ontological_db.Traverse.Heap.{
  Row, Direction, direction_of, adj_where, segment, scan, at_least, rounds, og_reach,
}
use ontological_db.Traverse.Steps.{Distinct, In-front}
use ontological_db.Traverse.Levels.{Walk}
use ontological_db.Traverse.Search.{Answer, search-Answer}

-- A row of the table, of the direction and the types that are asked for, leads from one node to the
-- other.
abbrev pub Linked : List Row → Direction → Option (List ℕ) → ℕ → ℕ → Type 0
Linked table dir etypes m n =
    (row : Row) × In row table
    × (row.src ≡ m)
    × (adj_where dir etypes row ≡ true)
    × In n (segment row.nbr)

In-scan :
    (table : List Row) (dir : Direction) (etypes : Option (List ℕ)) (frontier : List ℕ) (n : ℕ)
    → In n (scan table dir etypes frontier)
    → (m : ℕ) × In m frontier × Linked table dir etypes m n
unfolding scan
In-scan [] dir etypes frontier n h = elim h [ ]
In-scan (row ∷ table) dir etypes frontier n h =
    split (In-scan table dir etypes frontier n)
      (member row.src frontier && adj_where dir etypes row) refl h
  where
    wider :
        (m : ℕ) × In m frontier × Linked table dir etypes m n
        → (m : ℕ) × In m frontier × Linked (row ∷ table) dir etypes m n
    wider (m, f, (r, k, e, a, l)) = (m, f, (r, later k, e, a, l))

    split :
        (In n (scan table dir etypes frontier)
          → (m : ℕ) × In m frontier × Linked table dir etypes m n)
        → (b : Bool) → (member row.src frontier && adj_where dir etypes row) ≡ b
        → In n (
            if b
            then segment row.nbr ++ scan table dir etypes frontier
            else scan table dir etypes frontier)
        → (m : ℕ) × In m frontier × Linked (row ∷ table) dir etypes m n
    split again false e k = wider (again k)
    split again true e k =
        let (f, a) = and-both (member row.src frontier) (adj_where dir etypes row) e in
        elim (In-append n (segment row.nbr) (scan table dir etypes frontier) k) [
          | inl l ↦ (row.src, member-In row.src frontier f, (row, first, refl, a, l))
          | inr l ↦ wider (again l)
        ]

scan-In :
    (table : List Row) (dir : Direction) (etypes : Option (List ℕ)) (frontier : List ℕ) (m n : ℕ)
    → In m frontier
    → Linked table dir etypes m n
    → In n (scan table dir etypes frontier)
unfolding scan
scan-In [] dir etypes frontier m n f (row, h, e, a, l) = elim h [ ]
scan-In (r ∷ table) dir etypes frontier m n f (row, first, e, a, l) =
    rw (a, In-member row.src frontier (subst (λ (x : ℕ). In x frontier) (sym e) f))
      (In-append_left n (segment row.nbr) (scan table dir etypes frontier) l)
scan-In (r ∷ table) dir etypes frontier m n f (row, later h, e, a, l) =
    let k = scan-In table dir etypes frontier m n f (row, h, e, a, l) in
    elim (Bool-cases (member r.src frontier && adj_where dir etypes r)) [
      | inl q ↦ rw q (In-append_right n (segment r.nbr) (scan table dir etypes frontier) k)
      | inr q ↦ rw q k
    ]

scans :
    (table : List Row) (dir : Direction) (etypes : Option (List ℕ)) (frontier : List ℕ) (n : ℕ)
    → In n (scan table dir etypes frontier)
      ↔ ((m : ℕ) × In m frontier × Linked table dir etypes m n)
scans table dir etypes frontier n = (
  In-scan table dir etypes frontier n,
  λ h. let (m, f, l) = h in scan-In table dir etypes frontier m n f l,
)

Distinct-unique :
    (ps : List (ℕ × ℕ)) (n d e : ℕ) → Distinct ps → In (n, d) ps → In (n, e) ps → d ≡ e
Distinct-unique [] n d e h p q = elim p [ ]
Distinct-unique ((m, c) ∷ ps) n d e (h, hs) p q = elim (In-front p) [
  | inl a ↦ elim (In-front q) [
    | inl b ↦ ap (λ x. x.1) a ∙ sym (ap (λ x. x.1) b)
    | inr k ↦ absurd (h e (subst (λ (x : ℕ). In {A = ℕ × ℕ} (x, e) ps) (ap (λ x. x.0) a) k))
  ]
  | inr k ↦ elim (In-front q) [
    | inl b ↦ absurd (h d (subst (λ (x : ℕ). In {A = ℕ × ℕ} (x, d) ps) (ap (λ x. x.0) b) k))
    | inr l ↦ Distinct-unique ps n d e hs k l
  ]
]

-- The least length, within the bounds, of a walk from one node to the other.
abbrev pub Least : (ℕ → ℕ → Type 0) → ℤ → ℤ → ℕ → ℕ → Type 0
Least Reached minhop maxhop n d =
    Reached n d
    × (d ≤ rounds maxhop)
    × (at_least d minhop ≡ true)
    × ((j : ℕ) → Reached n j → at_least j minhop ≡ true → d ≤ j)

pub reported_iff :
    (Edge : ℕ → ℕ → Type 0) (nbrs : List ℕ → List ℕ)
    (scans_all : (f : List ℕ) (n : ℕ) → In n (nbrs f) ↔ ((m : ℕ) × In m f × Edge m n)) (src : ℕ)
    (minhop maxhop : ℤ) (out : List (ℕ × ℕ))
    → at_least 1 minhop ≡ true
    → Answer Edge nbrs scans_all src minhop (rounds maxhop) out
    → (n d : ℕ) → In {A = ℕ × ℕ} (n, d) out ↔ Least (Walk Edge src) minhop maxhop n d
reported_iff Edge nbrs scans_all src minhop maxhop out low a n d = (
  λ h.
      let (w, l, m, _) = a.sound n d h in
      (
        w,
        l,
        m,
        λ j v q. elim (Bool-cases (leb j (rounds maxhop))) [
          | inr e ↦ ground arith
          | inl e ↦
              let (c, x, p) = a.complete low n j v (leb→le j (rounds maxhop) e) q in
              let same = Distinct-unique out n d c a.distinct h p in omega arith
        ],
      ),
  λ h.
      let (w, l, m, least) = h in
      let (c, x, p) = a.complete low n d w l m in
      let (v, _, q, _) = a.sound n c p in
      let y = least c v q in
      let same : c ≡ d = omega arith in subst (λ (k : ℕ). In {A = ℕ × ℕ} (n, k) out) same p,
)

-- With minhop 1 at most, og_reach reports exactly the nodes that a walk of minhop to maxhop edges
-- leads to, each once and with the least length of such a walk; the start node too, if a cycle comes
-- back to it. A negative maxhop counts as 0.
pub og_reach_iff :
    (table : List Row) (src : ℕ) (etypes : Option (List ℕ)) (letter : ℕ) (dir : Direction)
    (minhop maxhop : ℤ)
    → direction_of letter ≡ ok dir
    → at_least 1 minhop ≡ true
    → (out : List (ℕ × ℕ)) × (og_reach table src etypes letter minhop maxhop ≡ ok out)
      × Distinct out
      × ((n d : ℕ)
          → In {A = ℕ × ℕ} (n, d) out
            ↔ Least (Walk (Linked table dir etypes) src) minhop maxhop n d)
unfolding og_reach
og_reach_iff table src etypes letter dir minhop maxhop e low =
    let a =
      search-Answer (Linked table dir etypes) (scan table dir etypes) (scans table dir etypes) src
        minhop (rounds maxhop) in
    (
      _,
      rw (e, og_reach) refl,
      a.distinct,
      reported_iff (Linked table dir etypes) (scan table dir etypes) (scans table dir etypes) src
          minhop maxhop _ low a,
    )

-- Whatever minhop is, og_reach reports every node once at most, and each other than the start node
-- with the length of a shortest walk to it.
pub og_reach_shortest :
    (table : List Row) (src : ℕ) (etypes : Option (List ℕ)) (letter : ℕ) (dir : Direction)
    (minhop maxhop : ℤ)
    → direction_of letter ≡ ok dir
    → (out : List (ℕ × ℕ)) × (og_reach table src etypes letter minhop maxhop ≡ ok out)
      × Distinct out
      × ((n d : ℕ)
          → In {A = ℕ × ℕ} (n, d) out
          → Walk (Linked table dir etypes) src n d
            × (d ≤ rounds maxhop)
            × (at_least d minhop ≡ true)
            × (n ≢ src → (j : ℕ) → Walk (Linked table dir etypes) src n j → d ≤ j))
unfolding og_reach
og_reach_shortest table src etypes letter dir minhop maxhop e =
    let a =
      search-Answer (Linked table dir etypes) (scan table dir etypes) (scans table dir etypes) src
        minhop (rounds maxhop) in
    (_, rw (e, og_reach) refl, a.distinct, a.sound)
