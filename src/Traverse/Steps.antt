-- ===== src/Traverse/Steps.antt =====
-- One level of the search of `og_reach` in engine/src/storage/traverse.rs.
use ontological_db.Base.{
  ℕ, ◌≡◌, refl, sym, ap, ◌∙◌, subst, ◌⊎◌, inl, inr, Bool, true, false, Bool-cases, and-both, not,
  ◌&&◌, ◌==◌, ==_iff, if◌then◌else◌, List, [], ◌∷◌, ◌++◌,
}
use ontological_db.Base.Int.{ℤ}
use ontological_db.Base.Members.{
  In, first, later, In-append, In-append_left, In-append_right, In-cases, member, member-In,
  In-member,
}
use ontological_db.Traverse.Heap.{Search, at_least, discover, returns, revisit, step, steps}

pub In-last {ℓ} : {A : Type ℓ} (x : A) (xs : List A) → In x (xs ++ x ∷ [])
In-last x xs = In-append_right x xs (x ∷ []) first

pub In-single {ℓ} : {A : Type ℓ} {x y : A} → In y (x ∷ []) → y ≡ x
In-single first = refl
In-single (later h) = elim h [ ]

pub In-front {ℓ} : {A : Type ℓ} {x y : A} {xs : List A} → In y (x ∷ xs) → (y ≡ x) ⊎ In y xs
In-front first = inl refl
In-front (later h) = inr h

In-snoc_cases {ℓ} :
    {A : Type ℓ} {y : A} (x : A) (xs : List A) → In y (xs ++ x ∷ []) → In y xs ⊎ (y ≡ x)
In-snoc_cases x xs h = elim (In-append _ xs (x ∷ []) h) [
  | inl k ↦ inl k
  | inr k ↦ inr (In-single k)
]

-- No two pairs have the same node.
abbrev pub Distinct : List (ℕ × ℕ) → Type 0
Distinct [] = Unit
Distinct ((n, d) ∷ ps) = ((e : ℕ) → In (n, e) ps → ⊥) × Distinct ps

pub Distinct-snoc :
    (ps : List (ℕ × ℕ)) (n d : ℕ)
    → Distinct ps
    → ((e : ℕ) → In (n, e) ps → ⊥)
    → Distinct (ps ++ (n, d) ∷ [])
Distinct-snoc [] n d h new = ((λ e k. elim k [ ]), tt)
Distinct-snoc ((m, c) ∷ ps) n d (h, hs) new = (
  λ e k. elim (In-snoc_cases (n, d) ps k) [
    | inl l ↦ h e l
    | inr q ↦ new c (subst (λ (x : ℕ). In (x, c) ((m, c) ∷ ps)) (cc q) first)
  ],
  Distinct-snoc ps n d hs (λ e k. new e (later k)),
)

module _ (src : ℕ) (minhop : ℤ) (depth : ℕ) where
  abbrev Late : Type 0
  Late = at_least depth minhop ≡ true

  -- What a search gains from a list of neighbours.
  pub record Grown (nbrs : List ℕ) (s s' : Search) : Type 0 where
    pub seen : (n : ℕ) → In n s'.visited → In n s.visited ⊎ In n nbrs
    pub keeps : (n : ℕ) → In n s.visited → In n s'.visited
    pub adds : (n : ℕ) → In n nbrs → In n s'.visited
    pub found : (n : ℕ) → In n s'.next → In n s.next ⊎ (In n nbrs × (In n s.visited → ⊥))
    pub next_keeps : (n : ℕ) → In n s.next → In n s'.next
    pub finds : (n : ℕ) → In n nbrs → (In n s.visited → ⊥) → In n s'.next
    pub reports :
        (n d : ℕ)
        → In (n, d) s'.out
        → In (n, d) s.out ⊎ ((d ≡ depth) × Late × In n nbrs × ((In n s.visited → ⊥) ⊎ (n ≡ src)))
    pub out_keeps : (p : ℕ × ℕ) → In p s.out → In p s'.out
    pub outs : (n : ℕ) → Late → In n nbrs → (In n s.visited → ⊥) → In (n, depth) s'.out
    pub done_keeps : s.start_done ≡ true → s'.start_done ≡ true
    pub done_sets : Late → In src nbrs → In src s.visited → s'.start_done ≡ true

  Grown-nil : (s : Search) → Grown [] s s
  Grown-nil s = record {
    seen = λ n h. inl h;
    keeps = λ n h. h;
    adds = λ n h. elim h [ ];
    found = λ n h. inl h;
    next_keeps = λ n h. h;
    finds = λ n h k. elim h [ ];
    reports = λ n d h. inl h;
    out_keeps = λ p h. h;
    outs = λ n l h k. elim h [ ];
    done_keeps = λ h. h;
    done_sets = λ l h k. elim h [ ];
  }

  module _ {x : ℕ} {xs : List ℕ} {s s1 s2 : Search} (g : Grown (x ∷ []) s s1)
      (h : Grown xs s1 s2) where
    wide : {n : ℕ} → In n (x ∷ []) → In n (x ∷ xs)
    wide first = first
    wide (later k) = elim k [ ]

    narrow : {n : ℕ} → In n (x ∷ xs) → In n (x ∷ []) ⊎ In n xs
    narrow first = inl first
    narrow (later k) = inr k

    new_second :
        {n : ℕ}
        → In n (x ∷ xs)
        → (In n s.visited → ⊥)
        → In n (x ∷ []) ⊎ (In n xs × (In n s1.visited → ⊥))
    new_second {n} first new = inl first
    new_second {n} (later k) new = elim (In-cases n s1.visited) [
      | inr fresh ↦ inr (k, fresh)
      | inl old ↦ elim (g.seen n old) [ inl a ↦ absurd (new a) | inr b ↦ inl b ]
    ]

    Grown-cons : Grown (x ∷ xs) s s2
    Grown-cons = record {
      seen = λ n k. elim (h.seen n k) [
        | inr b ↦ inr (later b)
        | inl a ↦ elim (g.seen n a) [ inl c ↦ inl c | inr d ↦ inr (wide d) ]
      ];
      keeps = λ n k. h.keeps n (g.keeps n k);
      adds = λ n k. elim (narrow k) [ inl a ↦ h.keeps n (g.adds n a) | inr b ↦ h.adds n b ];
      found = λ n k. elim (h.found n k) [
        | inr (b, new) ↦ inr (later b, λ o. new (g.keeps n o))
        | inl a ↦ elim (g.found n a) [ inl c ↦ inl c | inr (d, new) ↦ inr (wide d, new) ]
      ];
      next_keeps = λ n k. h.next_keeps n (g.next_keeps n k);
      finds = λ n k new. elim (new_second k new) [
        | inl a ↦ h.next_keeps n (g.finds n a new)
        | inr (b, fresh) ↦ h.finds n b fresh
      ];
      reports = λ n d k. elim (h.reports n d k) [
        | inr (e, l, b, inl new) ↦ inr (e, l, later b, inl (λ o. new (g.keeps n o)))
        | inr (e, l, b, inr home) ↦ inr (e, l, later b, inr home)
        | inl a ↦ elim (g.reports n d a) [
          | inl c ↦ inl c
          | inr (e, l, b, how) ↦ inr (e, l, wide b, how)
        ]
      ];
      out_keeps = λ p k. h.out_keeps p (g.out_keeps p k);
      outs = λ n l k new. elim (new_second k new) [
        | inl a ↦ h.out_keeps (n, depth) (g.outs n l a new)
        | inr (b, fresh) ↦ h.outs n l b fresh
      ];
      done_keeps = λ k. h.done_keeps (g.done_keeps k);
      done_sets = λ l k o. elim (narrow k) [
        | inl a ↦ h.done_keeps (g.done_sets l a o)
        | inr b ↦ h.done_sets l b (g.keeps src o)
      ];
    }

  pub if-In :
      {p q : ℕ × ℕ} (b : Bool) (ps : List (ℕ × ℕ))
      → In p (if b then ps ++ q ∷ [] else ps)
      → In p ps ⊎ ((p ≡ q) × (b ≡ true))
  if-In {p} {q} true ps h = elim (In-snoc_cases q ps h) [ inl k ↦ inl k | inr e ↦ inr (e, refl) ]
  if-In false ps h = inl h

  pub if-In_keeps :
      {p : ℕ × ℕ} (q : ℕ × ℕ) (b : Bool) (ps : List (ℕ × ℕ))
      → In p ps
      → In p (if b then ps ++ q ∷ [] else ps)
  if-In_keeps {p} q true ps h = In-append_left p ps (q ∷ []) h
  if-In_keeps q false ps h = h

  Grown-discover :
      (x : ℕ) (s : Search) → (In x s.visited → ⊥) → Grown (x ∷ []) s (discover src minhop depth x s)
  Grown-discover x s new = record {
    seen = λ n h. elim (In-front h) [
      | inl e ↦ inr (subst (λ (y : ℕ). In n (y ∷ [])) e first)
      | inr k ↦ inl k
    ];
    keeps = λ n h. later h;
    adds = λ n h. subst (λ (y : ℕ). In n (y ∷ s.visited)) (In-single h) first;
    found = λ n h. elim (In-snoc_cases x s.next h) [
      | inl k ↦ inl k
      | inr e ↦ inr (
        subst (λ (y : ℕ). In n (y ∷ [])) e first,
        subst (λ (y : ℕ). In y s.visited → ⊥) (sym e) new,
      )
    ];
    next_keeps = λ n h. In-append_left n s.next (x ∷ []) h;
    finds = λ n h k. In-append_right n s.next (x ∷ []) h;
    reports = λ n d h. elim (if-In (at_least depth minhop) s.out h) [
      | inl k ↦ inl k
      | inr (e, l) ↦
          let q : n ≡ x = ap (λ p. p.0) e in
          inr (
            ap (λ p. p.1) e,
            l,
            subst (λ (y : ℕ). In n (y ∷ [])) q first,
            inl (subst (λ (y : ℕ). In y s.visited → ⊥) (sym q) new),
          )
    ];
    out_keeps = λ p h. if-In_keeps _ (at_least depth minhop) s.out h;
    outs = λ n l h k. rw l (rw (In-single h) (In-last (x, depth) s.out));
    done_keeps = λ h. h;
    done_sets = λ l h k. absurd (new (subst (λ (y : ℕ). In y s.visited) (In-single h) k));
  }

  Grown-revisit :
      (x : ℕ) (s : Search) → In x s.visited → Grown (x ∷ []) s (revisit src minhop depth x s)
  Grown-revisit x s old = record {
    seen = λ n h. inl h;
    keeps = λ n h. h;
    adds = λ n h. subst (λ (y : ℕ). In y s.visited) (sym (In-single h)) old;
    found = λ n h. inl h;
    next_keeps = λ n h. h;
    finds = λ n h k. absurd (k (subst (λ (y : ℕ). In y s.visited) (sym (In-single h)) old));
    reports = λ n d h. elim (if-In (returns src minhop depth x s) s.out h) [
      | inl k ↦ inl k
      | inr (e, b) ↦
          let (both, late) = and-both (x == src && not s.start_done) (at_least depth minhop) b in
          let (at_home, _) = and-both (x == src) (not s.start_done) both in
          let home : n ≡ src = ap (λ p. p.0) e in
          let back : x ≡ src = (==_iff x src).0 at_home in
          inr (
            ap (λ p. p.1) e,
            late,
            subst (λ (y : ℕ). In n (y ∷ [])) (home ∙ sym back) first,
            inr home,
          )
    ];
    out_keeps = λ p h. if-In_keeps _ (returns src minhop depth x s) s.out h;
    outs = λ n l h k. absurd (k (subst (λ (y : ℕ). In y s.visited) (sym (In-single h)) old));
    done_keeps = λ h. if-done (returns src minhop depth x s) s.start_done h;
    done_sets = λ l h k. sets s.start_done l (In-single h);
  }
    where
      if-done : (b c : Bool) → c ≡ true → (if b then true else c) ≡ true
      if-done true c h = refl
      if-done false c h = h

      if-same : (b : Bool) → (if b then true else true) ≡ true
      if-same true = refl
      if-same false = refl

      sets :
          (b : Bool)
          → Late
          → src ≡ x
          → (if x == src && not b && at_least depth minhop then true else b) ≡ true
      sets true l e = if-same _
      sets false l e = rw (l, (==_iff x src).1 (sym e)) refl

  Grown-step : (x : ℕ) (s : Search) → Grown (x ∷ []) s (step src minhop depth x s)
  unfolding step
  Grown-step x s = elim (Bool-cases (member x s.visited)) [
    | inl e ↦ rw e (Grown-revisit x s (member-In x s.visited e))
    | inr e ↦ rw e (Grown-discover x s (λ h. let k = In-member x s.visited h in cc (e, k)))
  ]

  pub Grown-steps : (nbrs : List ℕ) (s : Search) → Grown nbrs s (steps src minhop depth nbrs s)
  unfolding steps
  Grown-steps [] s = Grown-nil s
  Grown-steps (x ∷ nbrs) s =
      Grown-cons (Grown-step x s) (Grown-steps nbrs (step src minhop depth x s))
