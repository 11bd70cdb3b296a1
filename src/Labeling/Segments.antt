-- ===== src/Labeling/Segments.antt =====
-- The rows that one stretch of the cursor gives, for engine/src/catalog/labeling.rs: `each` and
-- `assign` fill it with a row for each path from the types that they are called on.
use mathlib.Core.Option.{some-injective}
use ontological_db.Base.{
  subst, ℕ, ◌+◌, ◌≤◌, ◌<◌, ◌≡◌, refl, List, [], ◌∷◌, ◌++◌, some, sym, ap, ◌∙◌, arith,
}
use ontological_db.Labeling.{gap, TypeNode, Dag, Label, find, sort}
use ontological_db.Labeling.Paths.{
  later, In-one, In-snoc, first, In-both, In, In-append_left, In-append_right, In-sort, sort-In,
  Reaches, here, down,
}

-- The interval of `d` lies in that of `a`.
abbrev pub Nested : Label → Label → Type 0
Nested a d = (a.lft ≤ d.lft) × (d.rgt ≤ a.rgt)

-- The rows are those of `roots` and what lies below them, between the cursors `from` and `to`.
pub record Segment (dag : Dag) (roots : List ℕ) (from to : ℕ) (rows : List Label) : Type 0 where
  pub ordered : from ≤ to
  pub within : (a : Label) → In a rows → (from ≤ a.lft) × (a.lft < a.rgt) × (a.rgt < to)
  pub rooted : (a : Label) → In a rows → (x : ℕ) × In x roots × Reaches dag x a.type_id
  pub sound : (a d : Label) → In a rows → In d rows → Nested a d → Reaches dag a.type_id d.type_id
  pub complete :
      (a : Label) (y : ℕ)
      → In a rows
      → Reaches dag a.type_id y
      → (d : Label) × In d rows × (d.type_id ≡ y) × Nested a d
  pub covers : (x y : ℕ) → In x roots → Reaches dag x y → (d : Label) × In d rows × (d.type_id ≡ y)

module _ (dag : Dag) where
  pub Segment-nil : (c : ℕ) → Segment dag [] c c []
  Segment-nil c = record {
    ordered = omega arith;
    within = λ a h. elim h [ ];
    rooted = λ a h. elim h [ ];
    sound = λ a d h k n. elim h [ ];
    complete = λ a y h r. elim h [ ];
    covers = λ x y h r. elim h [ ];
  }

  module _ {x : ℕ} {xs : List ℕ} {c m c' : ℕ} {us vs : List Label} (s : Segment dag (x ∷ []) c m us)
      (t : Segment dag xs m c' vs) where
    apart : (a d : Label) → In a us → In d vs → (a.lft < d.lft) × (a.rgt < d.rgt)
    apart a d h k =
        let (p, q, r) = s.within a h in
        let (p', q', r') = t.within d k in (omega arith, omega arith)

    covers-append :
        (y : ℕ) (z : ℕ)
        → In z (x ∷ xs)
        → Reaches dag z y
        → (d : Label) × In d (us ++ vs) × (d.type_id ≡ y)
    covers-append y =
        In-both (λ z. Reaches dag z y → (d : Label) × In d (us ++ vs) × (d.type_id ≡ y))
          {xs = x ∷ []} {ys = xs}
          (λ z h r. let (d, k, e) = s.covers z y h r in (d, In-append_left d us vs k, e))
          (λ z h r. let (d, k, e) = t.covers z y h r in (d, In-append_right d us vs k, e))

    pub Segment-append : Segment dag (x ∷ xs) c c' (us ++ vs)
    Segment-append = record {
      ordered = omega (arith, s.ordered, t.ordered);
      within =
          In-both (λ a. (c ≤ a.lft) × (a.lft < a.rgt) × (a.rgt < c'))
            (λ a h. let (p, q, r) = s.within a h in (p, q, omega (arith, t.ordered)))
            (λ a h. let (p, q, r) = t.within a h in (omega (arith, s.ordered), q, r));
      rooted =
          In-both (λ a. (z : ℕ) × In z (x ∷ xs) × Reaches dag z a.type_id)
            (λ a h. let (z, k, r) = s.rooted a h in (z, In-append_left z (x ∷ []) xs k, r))
            (λ a h. let (z, k, r) = t.rooted a h in (z, later k, r));
      sound = λ a d h k.
          In-both
            (λ a. (d : Label) → In d (us ++ vs) → Nested a d → Reaches dag a.type_id d.type_id)
            (λ a h.
              In-both (λ d. Nested a d → Reaches dag a.type_id d.type_id) (λ d k. s.sound a d h k)
                (λ d k (p, q). absurd (omega (arith, apart a d h k))))
            (λ a h.
              In-both (λ d. Nested a d → Reaches dag a.type_id d.type_id)
                (λ d k (p, q). absurd (omega (arith, apart d a k h))) (λ d k. t.sound a d h k))
            a h d k;
      complete = λ a y h.
          In-both
            (λ a.
              Reaches dag a.type_id y
              → (d : Label) × In d (us ++ vs) × (d.type_id ≡ y) × Nested a d)
            (λ a h r. let (d, k, e, n) = s.complete a y h r in (d, In-append_left d us vs k, e, n))
            (λ a h r. let (d, k, e, n) = t.complete a y h r in (d, In-append_right d us vs k, e, n))
            a h;
      covers = λ z y. covers-append y z;
    }

  module _ (row : Label) {node : TypeNode} {rows : List Label}
      (found : find dag row.type_id ≡ some node)
      (s : Segment dag (sort node.children) (row.lft + gap) row.rgt rows) where
    inside : (a : Label) → In a rows → Nested row a × (row.lft < a.lft) × (a.rgt < row.rgt)
    inside a h =
        let (p, q, r) = s.within a h in ((omega arith, omega arith), omega arith, omega arith)

    below : (a : Label) → In a rows → Reaches dag row.type_id a.type_id
    below a h = let (z, k, r) = s.rooted a h in down node found (sort-In z node.children k) r

    step :
        (i y : ℕ)
        → i ≡ row.type_id
        → Reaches dag i y
        → (d : Label) × In d (rows ++ row ∷ []) × (d.type_id ≡ y) × Nested row d
    step i _ e here =
        (row, In-append_right row rows (row ∷ []) first, sym e, (omega arith, omega arith))
    step i y e (down {c = z} node' found' h r) =
        let same : node' ≡ node =
          some-injective node' node (sym found' ∙ ap (find dag) e ∙ found) in
        let (d, k, q) =
          s.covers z y (In-sort z node.children (subst (λ n. In z n.children) same h)) r in
        let (n, _, _) = inside d k in (d, In-append_left d rows (row ∷ []) k, q, n)

    pub Segment-node : Segment dag (row.type_id ∷ []) row.lft (row.rgt + gap) (rows ++ row ∷ [])
    Segment-node = record {
      ordered = omega (arith, s.ordered);
      within =
          In-snoc (λ a. (row.lft ≤ a.lft) × (a.lft < a.rgt) × (a.rgt < row.rgt + gap))
            (λ a h. let (p, q, r) = s.within a h in (omega arith, q, omega arith))
            (omega arith, omega (arith, s.ordered), omega arith);
      rooted =
          In-snoc (λ a. (z : ℕ) × In z (row.type_id ∷ []) × Reaches dag z a.type_id)
            (λ a h. (row.type_id, first, below a h)) (row.type_id, first, here);
      sound = λ a d h k.
          In-snoc
            (λ a.
              (d : Label) → In d (rows ++ row ∷ []) → Nested a d → Reaches dag a.type_id d.type_id)
            (λ a h.
              In-snoc (λ d. Nested a d → Reaches dag a.type_id d.type_id) (λ d k. s.sound a d h k)
                (λ (p, q). absurd (omega (arith, inside a h))))
            (In-snoc (λ d. Nested row d → Reaches dag row.type_id d.type_id) (λ d k n. below d k)
              (λ n. here))
            a h d k;
      complete = λ a y h.
          In-snoc
            (λ a.
              Reaches dag a.type_id y
              → (d : Label) × In d (rows ++ row ∷ []) × (d.type_id ≡ y) × Nested a d)
            (λ a h r.
              let (d, k, e, n) = s.complete a y h r in
              (d, In-append_left d rows (row ∷ []) k, e, n))
            (λ r. step row.type_id y refl r) a h;
      covers = λ z y h r.
          In-one (λ z. Reaches dag z y → (d : Label) × In d (rows ++ row ∷ []) × (d.type_id ≡ y))
            (λ r. let (d, k, e, _) = step row.type_id y refl r in (d, k, e)) z h r;
    }
