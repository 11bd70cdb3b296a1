-- ===== src/Traverse/Levels.antt =====
-- The levels of the search of `og_reach` in engine/src/storage/traverse.rs.
use ontological_db.Base.{
  ℕ, suc, ◌≡◌, ◌≤◌, refl, sym, ap, subst, inl, inr, Bool, true, false, Bool-cases, and-both, not,
  ◌&&◌, ◌==◌, if◌then◌else◌, List, [], ◌∷◌, ◌++◌, arith,
}
use ontological_db.Base.Int.{ℤ, pos, negsuc}
use ontological_db.Base.Members.{In, first, later, member, In-member}
use ontological_db.Traverse.Heap.{Search, at_least, discover, returns, revisit, step, steps}
use ontological_db.Traverse.Steps.{Distinct, Distinct-snoc, if-In, if-In_keeps, In-last}

-- Walks from a node along edges, by their length.
pub data Walk (Edge : ℕ → ℕ → Type 0) (src : ℕ) : ℕ → ℕ → Type 0 where
  here : Walk Edge src src 0
  further : {m n k : ℕ} → Walk Edge src m k → Edge m n → Walk Edge src n (suc k)

module _ (src : ℕ) (minhop : ℤ) where
  -- What every search is, at a depth.
  pub record Consistent (depth : ℕ) (s : Search) : Type 0 where
    pub distinct : Distinct s.out
    pub out_seen : (n d : ℕ) → In (n, d) s.out → In n s.visited
    pub src_done : (d : ℕ) → In (src, d) s.out → s.start_done ≡ true
    pub done_src : s.start_done ≡ true → (d : ℕ) × (d ≤ depth) × In (src, d) s.out
    pub home : In src s.visited

  discover-Consistent :
      (depth x : ℕ) (s : Search)
      → (In x s.visited → ⊥)
      → Consistent depth s
      → Consistent depth (discover src minhop depth x s)
  discover-Consistent depth x s new c = record {
    distinct = apart (at_least depth minhop);
    out_seen = λ n d h. elim (if-In src minhop depth (at_least depth minhop) s.out h) [
      | inl k ↦ later (c.out_seen n d k)
      | inr (e, _) ↦ subst (λ (y : ℕ). In n (y ∷ s.visited)) (ap (λ p. p.0) e) first
    ];
    src_done = λ d h. elim (if-In src minhop depth (at_least depth minhop) s.out h) [
      | inl k ↦ c.src_done d k
      | inr (e, _) ↦ absurd (new (subst (λ (y : ℕ). In y s.visited) (ap (λ p. p.0) e) c.home))
    ];
    done_src = λ h.
        let (d, l, k) = c.done_src h in
        (d, l, if-In_keeps src minhop depth _ (at_least depth minhop) s.out k);
    home = later c.home;
  }
    where
      apart : (b : Bool) → Distinct (if b then s.out ++ (x, depth) ∷ [] else s.out)
      apart true = Distinct-snoc s.out x depth c.distinct (λ e h. new (c.out_seen x e h))
      apart false = c.distinct

  revisit-Consistent :
      (depth x : ℕ) (s : Search)
      → Consistent depth s
      → Consistent depth (revisit src minhop depth x s)
  revisit-Consistent depth x s c = elim (Bool-cases (returns src minhop depth x s)) [
    | inr e ↦ unchanged e
    | inl e ↦
        let (both, late) = and-both (x == src && not s.start_done) (at_least depth minhop) e in
        let (_, undone) = and-both (x == src) (not s.start_done) both in reported e undone
  ]
    where
      unchanged :
          returns src minhop depth x s ≡ false → Consistent depth (revisit src minhop depth x s)
      unchanged e = record {
        distinct = rw e c.distinct;
        out_seen = rw e c.out_seen;
        src_done = rw e c.src_done;
        done_src = rw e c.done_src;
        home = c.home;
      }

      reported :
          returns src minhop depth x s ≡ true
          → not s.start_done ≡ true
          → Consistent depth (revisit src minhop depth x s)
      reported e undone = record {
        distinct = rw e (
            Distinct-snoc s.out src depth c.distinct
              (λ d h. let k = c.src_done d h in absurd (cc (rw k at undone))));
        out_seen = λ n d h. elim (if-In src minhop depth (returns src minhop depth x s) s.out h) [
          | inl k ↦ c.out_seen n d k
          | inr (q, _) ↦ subst (λ (y : ℕ). In y s.visited) (sym (ap (λ p. p.0) q)) c.home
        ];
        src_done = λ d h. rw e refl;
        done_src = λ h. (depth, omega arith, rw e (In-last (src, depth) s.out));
        home = c.home;
      }

  pub steps-Consistent :
      (depth : ℕ) (nbrs : List ℕ) (s : Search)
      → Consistent depth s
      → Consistent depth (steps src minhop depth nbrs s)
  unfolding steps step
  steps-Consistent depth [] s c = c
  steps-Consistent depth (x ∷ nbrs) s c =
      steps-Consistent depth nbrs (step src minhop depth x s) next
    where
      next : Consistent depth (step src minhop depth x s)
      next = elim (Bool-cases (member x s.visited)) [
        | inl e ↦ rw e (revisit-Consistent depth x s c)
        | inr e ↦
            rw e
              (discover-Consistent depth x s (λ h. let k = In-member x s.visited h in cc (e, k)) c)
      ]

pub at_least-suc : (k : ℕ) (minhop : ℤ) → at_least 1 minhop ≡ true → at_least (suc k) minhop ≡ true
at_least-suc k (pos m) h = ground arith
at_least-suc k (negsuc m) h = refl
