-- ===== src/Traverse/Search.antt =====
-- The whole search of `og_reach` in engine/src/storage/traverse.rs: what it reports within a number of
-- hops.
use ontological_db.Base.{
  ℕ, zero, suc, ◌+◌, ◌≡◌, ◌≢◌, ◌≤◌, ◌↔◌, refl, sym, ap, subst, inl, inr, Bool, true, false,
  Bool-cases, leb, leb→le, if◌then◌else◌, List, [], ◌∷◌, arith,
}
use ontological_db.Base.Int.{ℤ}
use ontological_db.Base.Members.{In, first}
use ontological_db.Traverse.Heap.{Search, at_least, levels, start}
use ontological_db.Traverse.Steps.{Distinct, In-single}
use ontological_db.Traverse.Levels.{Walk, here, further, at_least-suc}
use ontological_db.Traverse.Reach

module _ (Edge : ℕ → ℕ → Type 0) (nbrs : List ℕ → List ℕ)
    (scans : (f : List ℕ) (n : ℕ) → In n (nbrs f) ↔ ((m : ℕ) × In m f × Edge m n)) (src : ℕ)
    (minhop : ℤ) where
  abbrev Reached : ℕ → ℕ → Type 0
  Reached = Walk Edge src

  abbrev Done : ℕ → Search → Type 0
  Done = Reach.Done Edge nbrs scans src minhop

  abbrev Frontier : ℕ → List ℕ → Search → Type 0
  Frontier = Reach.Frontier Edge nbrs scans src minhop

  -- Without a frontier there is nothing left to find.
  nothing_left :
      {k : ℕ} {s : Search}
      → Done k s
      → Frontier k [] s
      → (n : ℕ) → Reached n (suc k)
      → (i : ℕ) × (suc i ≤ k) × Reached n (suc i)
  nothing_left {k} {s} c f n (further {m = m} w e) =
      elim (f.old m (c.to_visited m k w (omega arith))) [
        | inl a ↦ elim a [ ]
        | inr (j, l, v) ↦ (j, l, further v e)
      ]

  pub empty-Done : {k : ℕ} {s : Search} → Done k s → Frontier k [] s → Done (suc k) s
  empty-Done {k} {s} c f = record {
    consistent =
        let o = c.consistent in
        record {
          distinct = o.distinct;
          out_seen = o.out_seen;
          src_done = o.src_done;
          done_src = λ h. let (d, l, p) = o.done_src h in (d, omega arith, p);
          home = o.home;
        };
    to_visited = λ n j w l. elim (Bool-cases (leb j k)) [
      | inl e ↦ c.to_visited n j w (leb→le j k e)
      | inr e ↦
          let q : j ≡ suc k = ground arith in
          let (i, m, v) = nothing_left c f n (subst (Reached n) q w) in c.to_visited n (suc i) v m
    ];
    sound = λ n d h. let (w, l, m, least) = c.sound n d h in (w, omega arith, m, least);
    complete = λ low n j w l m. elim (Bool-cases (leb j k)) [
      | inl e ↦ c.complete low n j w (leb→le j k e) m
      | inr e ↦
          let q : j ≡ suc k = ground arith in
          let (i, r, v) = nothing_left c f n (subst (Reached n) q w) in
          let (d, x, p) = c.complete low n (suc i) v r (at_least-suc i minhop low) in
          (d, omega arith, p)
    ];
  }

  pub empty-Frontier : {k : ℕ} {s : Search} → Frontier k [] s → Frontier (suc k) [] s
  empty-Frontier {k} {s} f = record {
    at_distance = λ n h. elim h [ ];
    old = λ n h. elim (f.old n h) [ inl a ↦ elim a [ ] | inr (j, l, w) ↦ inr (j, omega arith, w) ];
  }

  -- The nodes reported within a number of hops.
  pub record Answer (k : ℕ) (out : List (ℕ × ℕ)) : Type 0 where
    pub distinct : Distinct out
    pub sound :
        (n d : ℕ)
        → In (n, d) out
        → Reached n d
          × (d ≤ k)
          × (at_least d minhop ≡ true)
          × (n ≢ src → (j : ℕ) → Reached n j → d ≤ j)
    pub complete :
        at_least 1 minhop ≡ true
        → (n j : ℕ) → Reached n j
        → j ≤ k
        → at_least j minhop ≡ true
        → (d : ℕ) × (d ≤ j) × In (n, d) out

  Done-Answer : {k : ℕ} {s : Search} → Done k s → Answer k s.out
  Done-Answer c = record {
    distinct = c.consistent.distinct;
    sound = c.sound;
    complete = c.complete;
  }

  idle : (i : ℕ) {k : ℕ} {s : Search} → Done k s → Frontier k [] s → Answer (i + k) s.out
  idle zero {k} {s} c f = subst (λ (x : ℕ). Answer x s.out) (omega arith) (Done-Answer c)
  idle (suc i) {k} {s} c f =
      subst (λ (x : ℕ). Answer x s.out) (omega arith) (idle i (empty-Done c f) (empty-Frontier f))

  levels-Answer :
      (i : ℕ) {k : ℕ} (frontier : List ℕ) (s : Search)
      → Done k s
      → Frontier k frontier s
      → Answer (i + k) (levels src minhop nbrs i (suc k) frontier s)
  unfolding levels
  levels-Answer zero {k} frontier s c f =
      subst (λ (x : ℕ). Answer x s.out) (omega arith) (Done-Answer c)
  levels-Answer (suc i) [] s c f = idle (suc i) c f
  levels-Answer (suc i) {k} (x ∷ xs) s c f =
      subst
        (λ (y : ℕ). Answer y (
          levels src minhop nbrs i (suc (suc k)) (Reach.after Edge nbrs scans src minhop c f).next
            (Reach.after Edge nbrs scans src minhop c f)))
        (omega arith)
        (levels-Answer i (Reach.after Edge nbrs scans src minhop c f).next
          (Reach.after Edge nbrs scans src minhop c f)
          (Reach.next-Done Edge nbrs scans src minhop c f)
          (Reach.next-Frontier Edge nbrs scans src minhop c f))

  start_out :
      (b : Bool) (n d : ℕ)
      → In {A = ℕ × ℕ} (n, d) (if b then (src, 0) ∷ [] else [])
      → (n ≡ src) × (d ≡ 0) × (b ≡ true)
  start_out true n d h = let e = In-single h in (ap (λ p. p.0) e, ap (λ p. p.1) e, refl)
  start_out false n d h = elim h [ ]

  start-Done : Done 0 (start src minhop)
  start-Done = record {
    consistent = record {
      distinct = single (at_least 0 minhop);
      out_seen = λ n d h.
          let (e, _, _) = start_out (at_least 0 minhop) n d h in
          subst (λ (x : ℕ). In x (src ∷ [])) (sym e) first;
      src_done = λ d h. let (_, _, b) = start_out (at_least 0 minhop) src d h in b;
      done_src = λ h. (0, omega arith, rw h first);
      home = first;
    };
    to_visited = λ n j w l. at_start n j w l;
    sound = λ n d h.
        let (e, q, b) = start_out (at_least 0 minhop) n d h in
        (rw (e, q) here, omega arith, rw q b, λ away. absurd (away e));
    complete = λ low n j w l m. reported n j w l m;
  }
    where
      single : (b : Bool) → Distinct (if b then (src, 0) ∷ [] else [])
      single true = ((λ e h. elim h [ ]), tt)
      single false = tt

      at_start : (n j : ℕ) → Reached n j → j ≤ 0 → In n (src ∷ [])
      at_start n zero here l = first
      at_start n (suc j) (further w e) l = absurd (omega arith)

      reported :
          (n j : ℕ)
          → Reached n j
          → j ≤ 0
          → at_least j minhop ≡ true
          → (d : ℕ) × (d ≤ j) × In (n, d) (start src minhop).out
      reported n zero here l m = (0, omega arith, rw m first)
      reported n (suc j) (further w e) l m = absurd (omega arith)

  start-Frontier : Frontier 0 (src ∷ []) (start src minhop)
  start-Frontier = record { at_distance = λ n h. rw (In-single h) here; old = λ n h. inl h }

  pub search-Answer : (i : ℕ) → Answer i (levels src minhop nbrs i 1 (src ∷ []) (start src minhop))
  search-Answer i =
      subst (λ (x : ℕ). Answer x (levels src minhop nbrs i 1 (src ∷ []) (start src minhop)))
        (omega arith) (levels-Answer i (src ∷ []) (start src minhop) start-Done start-Frontier)
