-- ===== src/Labeling/Queries.antt =====
-- The question of `og_is_subtype` of engine/src/catalog/labeling.rs, asked of the rows of a stretch.
use ontological_db.Base.{
  and-both, subst, or-true, or-cases, ℕ, ◌≡◌, ◌↔◌, refl, sym, inl, inr, List, [], ◌∷◌, true, ==_iff,
  arith,
}
use ontological_db.Labeling.{Dag, Label, encloses, any_encloses, any_below, is_subtype}
use ontological_db.Labeling.Paths.{In, first, later, Reaches}
use ontological_db.Labeling.Segments.{Segment, Nested}
use ontological_db.Labeling.Walks.{Below}

pub encloses_iff : (a d : Label) → (encloses a d ≡ true) ↔ Nested a d
unfolding encloses
encloses_iff a d = (λ e. ground (arith, e), λ n. ground (arith, n))

pub any_encloses_sound :
    (rows : List Label) (sup : ℕ) (d : Label)
    → any_encloses rows sup d ≡ true
    → (a : Label) × In a rows × (a.type_id ≡ sup) × Nested a d
unfolding any_encloses
any_encloses_sound [] sup d e = absurd (cc e)
any_encloses_sound (a ∷ rows) sup d e =
    let again = any_encloses_sound rows sup d in
    elim (or-cases _ _ e) [
      | inl q ↦
          let (t, n) = and-both _ _ q in
          (a, first, (==_iff a.type_id sup).0 t, (encloses_iff a d).0 n)
      | inr q ↦ let (b, k, t, n) = again q in (b, later k, t, n)
    ]

pub any_encloses_complete :
    (rows : List Label) (sup : ℕ) (a d : Label)
    → In a rows
    → a.type_id ≡ sup
    → Nested a d
    → any_encloses rows sup d ≡ true
unfolding any_encloses
any_encloses_complete [] sup a d h e n = elim h [ ]
any_encloses_complete (a ∷ rows) sup _ d first e n =
    rw ((==_iff a.type_id sup).1 e, (encloses_iff a d).1 n) refl
any_encloses_complete (b ∷ rows) sup a d (later h) e n =
    rw (any_encloses_complete rows sup a d h e n) (or-true _)

any_below_sound :
    (rows ds : List Label) (sub sup : ℕ)
    → any_below rows ds sub sup ≡ true
    → (d : Label) × In d ds × (d.type_id ≡ sub) × (any_encloses rows sup d ≡ true)
unfolding any_below
any_below_sound rows [] sub sup e = absurd (cc e)
any_below_sound rows (d ∷ ds) sub sup e =
    let again = any_below_sound rows ds sub sup in
    elim (or-cases _ _ e) [
      | inl q ↦ let (t, n) = and-both _ _ q in (d, first, (==_iff d.type_id sub).0 t, n)
      | inr q ↦ let (b, k, t, n) = again q in (b, later k, t, n)
    ]

any_below_complete :
    (rows ds : List Label) (sub sup : ℕ) (d : Label)
    → In d ds
    → d.type_id ≡ sub
    → any_encloses rows sup d ≡ true
    → any_below rows ds sub sup ≡ true
unfolding any_below
any_below_complete rows [] sub sup d h e n = elim h [ ]
any_below_complete rows (d ∷ ds) sub sup _ first e n = rw ((==_iff d.type_id sub).1 e, n) refl
any_below_complete rows (b ∷ ds) sub sup d (later h) e n =
    rw (any_below_complete rows ds sub sup d h e n) (or-true _)

-- The rows of one stretch of the cursor answer `og_is_subtype` for every type that has a row.
pub is_subtype-Segment :
    {dag : Dag} {roots : List ℕ} {c c' : ℕ} {rows : List Label} (sub sup : ℕ)
    → Segment dag roots c c' rows
    → Below dag roots sup
    → (is_subtype rows sub sup ≡ true) ↔ Reaches dag sup sub
unfolding is_subtype
is_subtype-Segment {dag} {rows = rows} sub sup s (x, h, r) = (
  λ e.
      let (d, k, t, n) = any_below_sound rows rows sub sup e in
      let (a, l, u, m) = any_encloses_sound rows sup d n in
      subst (λ z. Reaches dag z sub) u (subst (λ z. Reaches dag a.type_id z) t (s.sound a d l k m)),
  λ q.
      let (a, l, u) = s.covers x sup h r in
      let (d, k, t, m) = s.complete a sub l (subst (λ z. Reaches dag z sub) (sym u) q) in
      any_below_complete rows rows sub sup d k t (any_encloses_complete rows sup a d l u m),
)
