-- ===== src/Traverse/Positions.antt =====
-- The positions that `compile` of engine/src/storage/traverse.rs gives to ids, and its edges.
use ontological_db.Base.{
  ℕ, suc, ◌≡◌, ◌<◌, ◌↔◌, refl, sym, ap, ◌∙◌, subst, inl, inr, Bool, true, false, Bool-cases,
  Option-cases, ◌==◌, ==_iff, leb, if◌then◌else◌, List, [], ◌∷◌, ◌++◌, some, length, get_or, arith,
}
use ontological_db.Base.Members.{In, first, later, In-append, In-append_left, In-append_right}
use ontological_db.Traverse.Heap.{Direction}
use ontological_db.Traverse.Steps.{In-front}
use ontological_db.Traverse.Packing.{targets}
use ontological_db.Traverse.Csr.{
  Picked, all_ids, insert_id, sort_ids, dedup_ids, index_of, place_of, is_wanted, segment_edges,
  edges_of, ids_of,
}

In-insert_id : (x y : ℕ) (ys : List ℕ) → In x (y ∷ ys) → In x (insert_id y ys)
unfolding insert_id
In-insert_id x y [] h = h
In-insert_id x y (z ∷ zs) h = elim (Bool-cases (leb y z)) [
  | inl e ↦ rw e h
  | inr e ↦ rw e (elim (In-front h) [
    | inl q ↦ later (In-insert_id x y zs (subst (λ (w : ℕ). In x (w ∷ zs)) q first))
    | inr k ↦ elim (In-front k) [
      | inl q ↦ subst (λ (w : ℕ). In x (w ∷ insert_id y zs)) q first
      | inr l ↦ later (In-insert_id x y zs (later l))
    ]
  ])
]

In-sort_ids : (x : ℕ) (xs : List ℕ) → In x xs → In x (sort_ids xs)
unfolding sort_ids
In-sort_ids x [] h = h
In-sort_ids x (y ∷ ys) h = In-insert_id x y (sort_ids ys) (elim (In-front h) [
  | inl q ↦ subst (λ (w : ℕ). In x (w ∷ sort_ids ys)) q first
  | inr k ↦ later (In-sort_ids x ys k)
])

In-dedup_ids : (x : ℕ) (xs : List ℕ) → In x xs → In x (dedup_ids xs)
unfolding dedup_ids
In-dedup_ids x [] h = h
In-dedup_ids x (y ∷ []) h = h
In-dedup_ids x (y ∷ z ∷ zs) h = elim (Bool-cases (y == z)) [
  | inl e ↦ rw e (elim (In-front h) [
    | inl q ↦
        In-dedup_ids x (z ∷ zs) (subst (λ (w : ℕ). In x (w ∷ zs)) (q ∙ (==_iff y z).0 e) first)
    | inr k ↦ In-dedup_ids x (z ∷ zs) k
  ])
  | inr e ↦ rw e (elim (In-front h) [
    | inl q ↦ subst (λ (w : ℕ). In x (w ∷ dedup_ids (z ∷ zs))) q first
    | inr k ↦ later (In-dedup_ids x (z ∷ zs) k)
  ])
]

-- Every id of a picked row has a position.
pub In-ids_of : (x : ℕ) (rows : List Picked) → In x (all_ids rows) → In x (ids_of rows)
unfolding ids_of
In-ids_of x rows h = In-dedup_ids x (sort_ids (all_ids rows)) (In-sort_ids x (all_ids rows) h)

pub index_of_at :
    (ids : List ℕ) (id p : ℕ) → index_of ids id ≡ some p → (p < length ids) × (get_or ids p 0 ≡ id)
unfolding index_of
index_of_at [] id p h = absurd (cc h)
index_of_at (x ∷ xs) id p h = elim (Bool-cases (x == id)) [
  | inl e ↦
      let q : 0 ≡ p = cc (rw (index_of, e) at h) in rw (sym q) (omega arith, (==_iff x id).0 e)
  | inr e ↦ elim (Option-cases (index_of xs id)) [
    | inl n ↦ absurd (cc (rw (index_of, e, n) at h))
    | inr (r, n) ↦
        let (l, g) = index_of_at xs id r n in
        let q : suc r ≡ p = cc (rw (index_of, e, n) at h) in rw (sym q) (omega arith, g)
  ]
]

index_of_there : (ids : List ℕ) (id : ℕ) → In id ids → (p : ℕ) × (index_of ids id ≡ some p)
unfolding index_of
index_of_there [] id h = elim h [ ]
index_of_there (x ∷ xs) id h = elim (Bool-cases (x == id)) [
  | inl e ↦ (0, rw (index_of, e) refl)
  | inr e ↦ elim (In-front h) [
    | inl q ↦ absurd (let k = (==_iff x id).1 (sym q) in cc (k, e))
    | inr k ↦ let (p, i) = index_of_there xs id k in (suc p, rw (index_of, e, i) refl)
  ]
]

pub index_of-place_of :
    (ids : List ℕ) (id : ℕ) → In id ids → index_of ids id ≡ some (place_of ids id)
unfolding place_of
index_of-place_of ids id h =
    let (p, e) = index_of_there ids id h in
    let q : place_of ids id ≡ p = rw (place_of, e) refl in e ∙ ap some (sym q)

-- A picked row of the wanted direction leads from one id to the other.
abbrev pub Arc : List Picked → Direction → ℕ → ℕ → Type 0
Arc rows want m n =
    (row : Picked) × In row rows × (is_wanted want row.dir ≡ true) × (row.src ≡ m) × In n row.seg

In-segment_edges :
    (ids : List ℕ) (s : ℕ) (seg : List ℕ) (e : ℕ × ℕ)
    → In e (segment_edges ids s seg)
    → (e.0 ≡ s) × ((n : ℕ) × In n seg × (e.1 ≡ place_of ids n))
In-segment_edges ids s [] e h = elim h [ ]
In-segment_edges ids s (n ∷ ns) e h = elim (In-front h) [
  | inl q ↦ (ap (λ x. x.0) q, (n, first, ap (λ x. x.1) q))
  | inr k ↦ let (a, (m, i, b)) = In-segment_edges ids s ns e k in (a, (m, later i, b))
]

segment_edges-In :
    (ids : List ℕ) (s n : ℕ) (seg : List ℕ)
    → In n seg
    → In {A = ℕ × ℕ} (s, place_of ids n) (segment_edges ids s seg)
segment_edges-In ids s n [] h = elim h [ ]
segment_edges-In ids s n (m ∷ ms) h = elim (In-front h) [
  | inl q ↦ rw q first
  | inr k ↦ later (segment_edges-In ids s n ms k)
]

pub In-edges_of :
    (ids : List ℕ) (want : Direction) (rows : List Picked) (s t : ℕ)
    → In {A = ℕ × ℕ} (s, t) (edges_of ids want rows)
    → (m : ℕ) × (n : ℕ) × Arc rows want m n × (s ≡ place_of ids m) × (t ≡ place_of ids n)
unfolding edges_of
In-edges_of ids want [] s t h = elim h [ ]
In-edges_of ids want (row ∷ rows) s t h =
    split (In-edges_of ids want rows s t) (is_wanted want row.dir) refl h
  where
    wider :
        (m : ℕ) × (n : ℕ) × Arc rows want m n × (s ≡ place_of ids m) × (t ≡ place_of ids n)
        → (m : ℕ) × (n : ℕ) × Arc (row ∷ rows) want m n
          × (s ≡ place_of ids m)
          × (t ≡ place_of ids n)
    wider (m, n, (r, i, w, e, k), a, b) = (m, n, (r, later i, w, e, k), a, b)

    split :
        (In {A = ℕ × ℕ} (s, t) (edges_of ids want rows)
          → (m : ℕ) × (n : ℕ) × Arc rows want m n × (s ≡ place_of ids m) × (t ≡ place_of ids n))
        → (b : Bool) → is_wanted want row.dir ≡ b
        → In {A = ℕ × ℕ}
            (s, t)
            (if b
              then segment_edges ids (place_of ids row.src) row.seg ++ edges_of ids want rows
              else edges_of ids want rows)
        → (m : ℕ) × (n : ℕ) × Arc (row ∷ rows) want m n
          × (s ≡ place_of ids m)
          × (t ≡ place_of ids n)
    split again false e k = wider (again k)
    split again true e k =
        elim (In-append (s, t) (segment_edges ids (place_of ids row.src) row.seg)
          (edges_of ids want rows) k) [
            | inl l ↦
                let (a, (n, i, b)) = In-segment_edges ids (place_of ids row.src) row.seg (s, t) l in
                (row.src, n, (row, first, e, refl, i), a, b)
            | inr l ↦ wider (again l)
          ]

pub edges_of-In :
    (ids : List ℕ) (want : Direction) (rows : List Picked) (m n : ℕ)
    → Arc rows want m n
    → In {A = ℕ × ℕ} (place_of ids m, place_of ids n) (edges_of ids want rows)
unfolding edges_of
edges_of-In ids want [] m n (row, h, w, e, i) = elim h [ ]
edges_of-In ids want (r ∷ rows) m n (row, first, w, e, i) =
    rw (w, sym e)
      (In-append_left (place_of ids row.src, place_of ids n)
        (segment_edges ids (place_of ids row.src) row.seg) (edges_of ids want rows)
        (segment_edges-In ids (place_of ids row.src) n row.seg i))
edges_of-In ids want (r ∷ rows) m n (row, later h, w, e, i) =
    let k = edges_of-In ids want rows m n (row, h, w, e, i) in
    elim (Bool-cases (is_wanted want r.dir)) [
      | inl q ↦ rw q (
          In-append_right (place_of ids m, place_of ids n)
            (segment_edges ids (place_of ids r.src) r.seg) (edges_of ids want rows) k)
      | inr q ↦ rw q k
    ]

pub In-targets :
    (p q : ℕ) (edges : List (ℕ × ℕ)) → In q (targets p edges) ↔ In {A = ℕ × ℕ} (p, q) edges
unfolding targets
In-targets p q [] = (λ h. elim h [ ], λ h. elim h [ ])
In-targets p q ((s, d) ∷ edges) =
    let (to, from) = In-targets p q edges in
    elim (Bool-cases (s == p)) [
      | inl e ↦
          let r : s ≡ p = (==_iff s p).0 e in
          rw e (
            λ h. elim (In-front h) [ inl a ↦ rw (a, sym r) first | inr k ↦ later (to k) ],
            λ h. elim (In-front h) [
              | inl a ↦ rw (ap (λ (x : ℕ × ℕ). x.1) a) first
              | inr k ↦ later (from k)
            ],
          )
      | inr e ↦ rw e (
        λ h. later (to h),
        λ h. elim (In-front h) [
          | inl a ↦ absurd (let k = (==_iff s p).1 (sym (ap (λ (x : ℕ × ℕ). x.0) a)) in cc (k, e))
          | inr k ↦ from k
        ],
      )
    ]

In-all_ids_src : (row : Picked) (rows : List Picked) → In row rows → In row.src (all_ids rows)
unfolding all_ids
In-all_ids_src row [] h = elim h [ ]
In-all_ids_src row (r ∷ rows) first = first
In-all_ids_src row (r ∷ rows) (later h) =
    later (In-append_right row.src r.seg (all_ids rows) (In-all_ids_src row rows h))

In-all_ids_seg :
    (row : Picked) (rows : List Picked) (n : ℕ) → In row rows → In n row.seg → In n (all_ids rows)
unfolding all_ids
In-all_ids_seg row [] n h i = elim h [ ]
In-all_ids_seg row (r ∷ rows) n first i = later (In-append_left n row.seg (all_ids rows) i)
In-all_ids_seg row (r ∷ rows) n (later h) i =
    later (In-append_right n r.seg (all_ids rows) (In-all_ids_seg row rows n h i))

-- Both ends of an arc have positions.
pub Arc-In :
    (rows : List Picked) (want : Direction) (m n : ℕ)
    → Arc rows want m n
    → In m (ids_of rows) × In n (ids_of rows)
Arc-In rows want m n (row, h, w, e, i) = (
  In-ids_of m rows (rw (← e) (In-all_ids_src row rows h)),
  In-ids_of n rows (In-all_ids_seg row rows n h i),
)
