-- ===== src/Labeling/Listing.antt =====
-- `og_subtypes` and `og_supertypes` of engine/src/catalog/labeling.rs, over the rows of one graph.
use ontological_db.Base.{
  and-both, or-true, or-cases, ℕ, ◌≡◌, ◌↔◌, refl, sym, inl, inr, List, [], ◌∷◌, some, true, false,
  Bool, ◌==◌, ◌&&◌, ◌||◌, ==_iff, Bool-cases, subst, if◌then◌else◌,
}
use ontological_db.Base.Outcome.{ok}
use ontological_db.Labeling.{Dag, Label, relabel, encloses, any_encloses, contains}
use ontological_db.Labeling.Paths.{In-under, In, first, later, Reaches}
use ontological_db.Labeling.Segments.{Nested}
use ontological_db.Labeling.Reachable.{contains-In, In-cases, keys, Distinct}
use ontological_db.Labeling.Subtypes.{relabel_rows}
use ontological_db.Labeling.Queries.{any_encloses_sound, any_encloses_complete, encloses_iff}

-- `SELECT DISTINCT`: each id once.
pub dedup : List ℕ → List ℕ
dedup [] = []
dedup (x ∷ xs) = let rest = dedup xs in if contains rest x then rest else x ∷ rest

-- The type ids of the rows that pass a test.
pub ids_where : (Label → Bool) → List Label → List ℕ
ids_where test [] = []
ids_where test (a ∷ rows) =
    let rest = ids_where test rows in if test a then a.type_id ∷ rest else rest

-- `og_subtypes`: the types of the rows that lie in a row of `sup`.
pub subtypes : List Label → ℕ → List ℕ
unfolding dedup ids_where
subtypes rows sup = dedup (ids_where (any_encloses rows sup) rows)

any_enclosed : List Label → ℕ → Label → Bool
any_enclosed [] sub a = false
any_enclosed (d ∷ rows) sub a = (d.type_id == sub && encloses a d) || any_enclosed rows sub a

-- `og_supertypes`: the types of the rows in which a row of `sub` lies.
pub supertypes : List Label → ℕ → List ℕ
unfolding dedup ids_where any_enclosed
supertypes rows sub = dedup (ids_where (any_enclosed rows sub) rows)

dedup-Distinct : (xs : List ℕ) → Distinct (dedup xs)
unfolding dedup Distinct
dedup-Distinct [] = tt
dedup-Distinct (x ∷ xs) =
    let again = dedup-Distinct xs in
    elim (Bool-cases (contains (dedup xs) x)) [ inl e ↦ rw e again | inr e ↦ rw e (e, again) ]

dedup-In : (x : ℕ) (xs : List ℕ) → In x (dedup xs) ↔ In x xs
unfolding dedup
dedup-In x [] = (λ h. h, λ h. h)
dedup-In x (y ∷ xs) =
    let (to, from) = dedup-In x xs in
    elim (Bool-cases (contains (dedup xs) y)) [
      | inl e ↦ rw e (
        λ h. later (to h),
        λ h. elim (In-cases h) [
          | inl q ↦ subst (λ z. In z (dedup xs)) (sym q) (contains-In (dedup xs) y e)
          | inr k ↦ from k
        ],
      )
      | inr e ↦ rw e (In-under to, In-under from)
    ]

any_enclosed_sound :
    (rows : List Label) (sub : ℕ) (a : Label)
    → any_enclosed rows sub a ≡ true
    → (d : Label) × In d rows × (d.type_id ≡ sub) × Nested a d
unfolding any_enclosed
any_enclosed_sound [] sub a e = absurd (cc e)
any_enclosed_sound (d ∷ rows) sub a e =
    let again = any_enclosed_sound rows sub a in
    elim (or-cases _ _ e) [
      | inl q ↦
          let (t, n) = and-both _ _ q in
          (d, first, (==_iff d.type_id sub).0 t, (encloses_iff a d).0 n)
      | inr q ↦ let (b, k, t, n) = again q in (b, later k, t, n)
    ]

any_enclosed_complete :
    (rows : List Label) (sub : ℕ) (a d : Label)
    → In d rows
    → d.type_id ≡ sub
    → Nested a d
    → any_enclosed rows sub a ≡ true
unfolding any_enclosed
any_enclosed_complete [] sub a d h e n = elim h [ ]
any_enclosed_complete (d ∷ rows) sub a _ first e n =
    rw ((==_iff d.type_id sub).1 e, (encloses_iff a d).1 n) refl
any_enclosed_complete (b ∷ rows) sub a d (later h) e n =
    rw (any_enclosed_complete rows sub a d h e n) (or-true _)

module _ (test : Label → Bool) where
  ids_where_sound :
      (x : ℕ) (rows : List Label)
      → In x (ids_where test rows)
      → (a : Label) × In a rows × (a.type_id ≡ x) × (test a ≡ true)
  unfolding ids_where
  ids_where_sound x [] h = elim h [ ]
  ids_where_sound x (a ∷ rows) h =
      let again = ids_where_sound x rows in
      let wider : In x (ids_where test rows)
          → (b : Label) × In b (a ∷ rows) × (b.type_id ≡ x) × (test b ≡ true) =
        λ k. let (b, m, t, q) = again k in (b, later m, t, q) in
      let pick : Bool → List ℕ =
        λ c. if c then a.type_id ∷ ids_where test rows else ids_where test rows in
      elim (Bool-cases (test a)) [
        | inl e ↦ elim (In-cases (subst (λ c. In x (pick c)) e h)) [
          | inl q ↦ (a, first, sym q, e)
          | inr k ↦ wider k
        ]
        | inr e ↦ wider (subst (λ c. In x (pick c)) e h)
      ]

  ids_where_complete :
      (a : Label) (rows : List Label)
      → In a rows
      → test a ≡ true
      → In a.type_id (ids_where test rows)
  unfolding ids_where
  ids_where_complete a [] h e = elim h [ ]
  ids_where_complete a (_ ∷ rows) first e = rw e first
  ids_where_complete a (b ∷ rows) (later h) e =
      let k = ids_where_complete a rows h e in
      elim (Bool-cases (test b)) [ inl q ↦ rw q (later k) | inr q ↦ rw q k ]

-- Once `relabel_graph` has replaced the labels, `og_subtypes` lists the descendants of a type of the
-- graph, the type itself among them, each once.
pub subtypes_iff :
    (dag : Dag) (rows : List Label) (sup : ℕ)
    → relabel dag ≡ ok (some rows)
    → In sup (keys dag)
    → Distinct (subtypes rows sup) × ((x : ℕ) → In x (subtypes rows sup) ↔ Reaches dag sup x)
unfolding subtypes
subtypes_iff dag rows sup e h =
    let (c, s, all) = relabel_rows dag rows e in
    let (z, k, r) = all sup h in
    (
      dedup-Distinct _,
      λ x. (
        λ m.
            let (d, l, t, q) = ids_where_sound _ x rows ((dedup-In x _).0 m) in
            let (a, u, v, n) = any_encloses_sound rows sup d q in
            subst (λ y. Reaches dag y x) v (subst (Reaches dag a.type_id) t (s.sound a d u l n)),
        λ p.
            let (a, u, v) = s.covers z sup k r in
            let (d, l, t, n) = s.complete a x u (subst (λ y. Reaches dag y x) (sym v) p) in
            (dedup-In x _).1 (
              subst (λ y. In y (ids_where (any_encloses rows sup) rows)) t
                (ids_where_complete _ d rows l (any_encloses_complete rows sup a d u v n))),
      ),
    )

-- Once `relabel_graph` has replaced the labels, `og_supertypes` lists the types of the graph that a
-- type descends from, the type itself among them, each once.
pub supertypes_iff :
    (dag : Dag) (rows : List Label) (sub : ℕ)
    → relabel dag ≡ ok (some rows)
    → Distinct (supertypes rows sub)
      × ((x : ℕ) → In x (keys dag) → In x (supertypes rows sub) ↔ Reaches dag x sub)
unfolding supertypes
supertypes_iff dag rows sub e =
    let (c, s, all) = relabel_rows dag rows e in
    (
      dedup-Distinct _,
      λ x h.
          let (z, k, r) = all x h in
          (
            λ m.
                let (a, l, t, q) = ids_where_sound _ x rows ((dedup-In x _).0 m) in
                let (d, u, v, n) = any_enclosed_sound rows sub a q in
                subst (λ y. Reaches dag y sub) t
                  (subst (Reaches dag a.type_id) v (s.sound a d l u n)),
            λ p.
                let (a, u, v) = s.covers z x k r in
                let (d, l, t, n) = s.complete a sub u (subst (λ y. Reaches dag y sub) (sym v) p) in
                (dedup-In x _).1 (
                  subst (λ y. In y (ids_where (any_enclosed rows sub) rows)) v
                    (ids_where_complete _ a rows u (any_enclosed_complete rows sub a d l t n))),
          ),
    )
