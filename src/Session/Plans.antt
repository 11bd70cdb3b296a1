-- ===== src/Session/Plans.antt =====
-- Which queries bolt/src/session.rs takes for EXPLAIN and PROFILE, against a description of the prefix.
use ontological_db.Base.{
  ℕ, zero, suc, ◌≡◌, ◌<◌, ◌&&◌, refl, sym, ap, ◌∙◌, subst, ◌⊎◌, inl, inr, Bool, true, false,
  Bool-cases, and-both, ltb, lt→ltb, List, [], ◌∷◌, ◌++◌, some, map, length, length-append, take,
  drop, take-append, drop-append, take-append-drop, get_or, list_eq, list_eq_iff, arith,
}
use ontological_db.Base.Members.{In, first, later}
use ontological_db.Text.Strings.{
  codes, to_lower, eq_ignore_ascii_case, is_ascii_whitespace, trim_start,
}
use ontological_db.Session.Settings.{Text}
use ontological_db.Session.Prefix.{split_plan_prefix, split_at, behind, opens_with, plan_keywords}
use ontological_db.Session.Slices.{IsAscii, drop-IsAscii, trim_start-IsAscii, no_continuation}

-- A text starts with a keyword, in any case, and white space stands behind it; what follows the
-- keyword.
abbrev pub Opens : Text → Text → Text → Type 0
Opens kw t rest =
    (w : Text) × (c : ℕ) × (u : Text) × (t ≡ w ++ c ∷ u)
    × (map to_lower w ≡ map to_lower kw)
    × (is_ascii_whitespace c ≡ true)
    × (rest ≡ c ∷ u)

-- A query is a plan prefix before this text, which does not start with FABRIC and white space.
abbrev pub Planned : Text → Text → Type 0
Planned query body =
    (kw : Text) × In kw plan_keywords
    × (rest : Text) × Opens kw (trim_start query) rest
    × (body ≡ trim_start rest)
    × ((r : Text) → Opens (codes "fabric") body r → ⊥)

white_space_at :
    (n : ℕ) (t : Text)
    → is_ascii_whitespace (get_or t n 0) ≡ true
    → (c : ℕ) × (u : Text) × (drop n t ≡ c ∷ u) × (is_ascii_whitespace c ≡ true)
unfolding is_ascii_whitespace
white_space_at zero [] e = absurd (cc e)
white_space_at (suc n) [] e = absurd (cc e)
white_space_at zero (c ∷ u) e = (c, u, refl, e)
white_space_at (suc n) (b ∷ t) e = white_space_at n t e

opens_with-Opens : (kw t : Text) → opens_with kw t ≡ true → Opens kw t (drop (length kw) t)
unfolding opens_with eq_ignore_ascii_case
opens_with-Opens kw t e =
    let n = length kw in
    let (same, white) =
      and-both (list_eq (map to_lower (take n t)) (map to_lower kw))
        (is_ascii_whitespace (get_or t n 0)) e in
    let (c, u, q, s) = white_space_at n t white in
    (
      take n t,
      c,
      u,
      sym (take-append-drop n t) ∙ ap (λ r. take n t ++ r) q,
      (list_eq_iff (map to_lower (take n t)) (map to_lower kw)).0 same,
      s,
      q,
    )

length-lower : (w kw : Text) → map to_lower w ≡ map to_lower kw → length w ≡ length kw
length-lower w kw e = sym (kept w) ∙ ap length e ∙ kept kw
  where
    kept : (w : Text) → length (map to_lower w) ≡ length w
    kept [] = refl
    kept (b ∷ w) = ap suc (kept w)

get_or-append : (w : Text) (c : ℕ) (u : Text) → get_or (w ++ c ∷ u) (length w) 0 ≡ c
get_or-append [] c u = refl
get_or-append (b ∷ w) c u = get_or-append w c u

Opens-opens_with :
    (kw t rest : Text)
    → Opens kw t rest
    → (opens_with kw t ≡ true) × (rest ≡ drop (length kw) t) × (length kw < length t)
unfolding opens_with eq_ignore_ascii_case
Opens-opens_with kw t rest (w, c, u, split, same, white, q) =
    let n = length-lower w kw same in
    let a = take-append w (c ∷ u) in
    let d = drop-append w (c ∷ u) in
    let g = get_or-append w c u in
    let e = (list_eq_iff (map to_lower w) (map to_lower kw)).1 same in
    let l = length-append w (c ∷ u) in
    subst
      (λ (s : Text).
        (opens_with kw s ≡ true) × (rest ≡ drop (length kw) s) × (length kw < length s))
      (sym split)
      (subst
        (λ (k : ℕ).
          ((list_eq (map to_lower (take k (w ++ c ∷ u))) (map to_lower kw)
              && is_ascii_whitespace (get_or (w ++ c ∷ u) k 0))
            ≡ true)
          × (rest ≡ drop k (w ++ c ∷ u))
          × (k < length (w ++ c ∷ u)))
        n (rw (a, g, e, white) refl, q ∙ sym d, omega arith))

-- No text starts with both keywords.
one_keyword : (t r s : Text) → Opens (codes "explain") t r → Opens (codes "profile") t s → ⊥
unfolding opens_with eq_ignore_ascii_case list_eq
one_keyword t r s a b =
    let (e, _, _) = Opens-opens_with (codes "explain") t r a in
    let (f, _, _) = Opens-opens_with (codes "profile") t s b in
    let (p, _) =
      and-both (list_eq (map to_lower (take 7 t)) (codes "explain"))
        (is_ascii_whitespace (get_or t 7 0)) e in
    let (q, _) =
      and-both (list_eq (map to_lower (take 7 t)) (codes "profile"))
        (is_ascii_whitespace (get_or t 7 0)) f in
    let same : codes "explain" ≡ codes "profile" =
      sym ((list_eq_iff (map to_lower (take 7 t)) (codes "explain")).0 p)
      ∙ (list_eq_iff (map to_lower (take 7 t)) (codes "profile")).0 q in
    let k : list_eq (codes "explain") (codes "profile") ≡ true = (list_eq_iff _ _).1 same in cc k

behind-cases :
    (query rest : Text)
    → IsAscii rest
    → (((r : Text) × Opens (codes "fabric") rest r) × (behind query rest ≡ some (query, false)))
      ⊎ (((r : Text) → Opens (codes "fabric") rest r → ⊥) × (behind query rest ≡ some (rest, true)))
unfolding behind
behind-cases query rest h = elim (Bool-cases (ltb 6 (length rest))) [
  | inl e ↦ elim (Bool-cases (opens_with (codes "fabric") rest)) [
    | inl f ↦ inl (
      (drop 6 rest, opens_with-Opens (codes "fabric") rest f),
      rw (behind, e, no_continuation 6 rest h, f) refl,
    )
    | inr f ↦ inr (
      λ r o. let (g, _, _) = Opens-opens_with (codes "fabric") rest r o in cc (f, g),
      rw (behind, e, no_continuation 6 rest h, f) refl,
    )
  ]
  | inr e ↦ inr (
    λ r o.
        let (_, _, l) = Opens-opens_with (codes "fabric") rest r o in
        let k = lt→ltb 6 (length rest) l in cc (e, k),
    rw (behind, e) refl,
  )
]

keyword-cases :
    (kw : Text) (kws : List Text) (query t : Text)
    → IsAscii t
    → (Opens kw t (drop (length kw) t)
        × (split_at (kw ∷ kws) query t ≡ behind query (trim_start (drop (length kw) t))))
      ⊎ (((rest : Text) → Opens kw t rest → ⊥)
          × (split_at (kw ∷ kws) query t ≡ split_at kws query t))
unfolding split_at
keyword-cases kw kws query t h = elim (Bool-cases (ltb (length kw) (length t))) [
  | inl e ↦ elim (Bool-cases (opens_with kw t)) [
    | inl f ↦
        inl (opens_with-Opens kw t f, rw (split_at, e, no_continuation (length kw) t h, f) refl)
    | inr f ↦ inr (
      λ r o. let (g, _, _) = Opens-opens_with kw t r o in cc (f, g),
      rw (split_at, e, no_continuation (length kw) t h, f) refl,
    )
  ]
  | inr e ↦ inr (
    λ r o.
        let (_, _, l) = Opens-opens_with kw t r o in
        let k = lt→ltb (length kw) (length t) l in cc (e, k),
    rw (split_at, e) refl,
  )
]

-- What the split of a query says.
abbrev pub Split : Text → Text → Bool → Type 0
Split query body plan_only =
    ((plan_only ≡ true) × Planned query body)
    ⊎ ((plan_only ≡ false) × (body ≡ query) × ((b : Text) → Planned query b → ⊥))

module _ (query : Text) (ascii : IsAscii (trim_start query)) where
  abbrev trimmed : Text
  trimmed = trim_start query

  -- Behind the only keyword that stands there.
  prefixed :
      (kw : Text)
      → In kw plan_keywords
      → Opens kw trimmed (drop (length kw) trimmed)
      → ((k r : Text) → In k plan_keywords → Opens k trimmed r → r ≡ drop (length kw) trimmed)
      → (body : Text) × (plan_only : Bool) × (behind query (trim_start (drop (length kw) trimmed))
          ≡ some (body, plan_only))
        × Split query body plan_only
  prefixed kw i o sole =
      let rest = drop (length kw) trimmed in
      elim (behind-cases query (trim_start rest)
        (trim_start-IsAscii rest (drop-IsAscii (length kw) trimmed ascii))) [
          | inl ((r, f), e) ↦ (
            query,
            false,
            e,
            inr (
              refl,
              refl,
              λ b p.
                  let (k, j, s, a, q, other) = p in
                  let same : b ≡ trim_start rest = q ∙ ap trim_start (sole k s j a) in
                  other r (subst (λ (z : Text). Opens (codes "fabric") z r) (sym same) f),
            ),
          )
          | inr (other, e) ↦ (trim_start rest, true, e, inl (refl, (kw, i, rest, o, refl, other)))
        ]

  split_keywords :
      (body : Text) × (plan_only : Bool) × (split_at plan_keywords query trimmed
        ≡ some (body, plan_only))
      × Split query body plan_only
  split_keywords =
      elim (keyword-cases (codes "explain") (codes "profile" ∷ []) query trimmed ascii) [
        | inl (o, e) ↦
            let (b, p, q, s) = prefixed (codes "explain") first o (λ k r i a. explained r i a o) in
            (b, p, e ∙ q, s)
        | inr (un_e, e) ↦ elim (keyword-cases (codes "profile") [] query trimmed ascii) [
          | inl (o, f) ↦
              let (b, p, q, s) =
                prefixed (codes "profile") (later first) o (λ k r i a. profiled r i a un_e) in
              (b, p, e ∙ f ∙ q, s)
          | inr (un_p, f) ↦
              (query, false, e ∙ f ∙ end, inr (refl, refl, λ b p. unplanned b p un_e un_p))
        ]
      ]
    where
      end : split_at [] query trimmed ≡ some (query, false)
      end = unfold split_at in refl

      explained :
          {k : Text} (r : Text)
          → In k plan_keywords
          → Opens k trimmed r
          → Opens (codes "explain") trimmed (drop 7 trimmed)
          → r ≡ drop 7 trimmed
      explained r first a o = (Opens-opens_with (codes "explain") trimmed r a).1
      explained r (later first) a o = absurd (one_keyword trimmed _ r o a)
      explained r (later (later i)) a o = elim i [ ]

      profiled :
          {k : Text} (r : Text)
          → In k plan_keywords
          → Opens k trimmed r
          → ((rest : Text) → Opens (codes "explain") trimmed rest → ⊥)
          → r ≡ drop 7 trimmed
      profiled r first a un_e = absurd (un_e r a)
      profiled r (later first) a un_e = (Opens-opens_with (codes "profile") trimmed r a).1
      profiled r (later (later i)) a un_e = elim i [ ]

      unplanned :
          (b : Text)
          → Planned query b
          → ((rest : Text) → Opens (codes "explain") trimmed rest → ⊥)
          → ((rest : Text) → Opens (codes "profile") trimmed rest → ⊥)
          → ⊥
      unplanned b (k, first, r, a, q, f) un_e un_p = un_e r a
      unplanned b (k, later first, r, a, q, f) un_e un_p = un_p r a
      unplanned b (k, later (later i), r, a, q, f) un_e un_p = elim i [ ]

-- A query of ASCII characters is split without a panic. Either EXPLAIN or PROFILE, in any case, stands
-- behind its leading white space, with white space behind it, and what follows does not start with
-- FABRIC and white space: then a plan is asked for, of what follows without its leading white space.
-- Or this is not so, and the query is passed on whole.
pub split_plan_prefix-ascii :
    (query : Text)
    → IsAscii query
    → (body : Text) × (plan_only : Bool) × (split_plan_prefix query ≡ some (body, plan_only))
      × Split query body plan_only
unfolding split_plan_prefix
split_plan_prefix-ascii query h = split_keywords query (trim_start-IsAscii query h)
