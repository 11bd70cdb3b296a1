-- ===== src/Traverse/Refines.antt =====
-- The compiled graph of engine/src/storage/traverse.rs answers as the rows of og_data.og_adj do.
use ontological_db.Base.{
  ℕ, zero, suc, ◌≡◌, ◌↔◌, refl, inl, inr, true, Option-cases, List, Option, none, length,
}
use ontological_db.Base.Int.{ℤ}
use ontological_db.Base.Outcome.{ok}
use ontological_db.Base.Members.{In}
use ontological_db.Traverse.Heap.{Direction, Row, direction_of, at_least, og_reach}
use ontological_db.Traverse.Levels.{Walk, here, further}
use ontological_db.Traverse.Answers.{Linked, Least, og_reach_iff}
use ontological_db.Traverse.Csr.{
  Csr, Picked, pick, ids_of, index_of, compile, og_csr_build, flip, build_key, edges_of, with_csr,
}
use ontological_db.Traverse.Compressed.{pack}
use ontological_db.Traverse.CsrReach.{csr_reach, og_csr_reach}
use ontological_db.Traverse.Positions.{index_of-place_of, Arc, Arc-In}
use ontological_db.Traverse.Picks.{Linked-Arc}
use ontological_db.Traverse.CsrAnswers.{Walk-map, csr_reach_iff}

Least-map :
    {R S : ℕ → ℕ → Type 0} (minhop maxhop : ℤ)
    → ((x k : ℕ) → R x k ↔ S x k)
    → (x d : ℕ) → Least R minhop maxhop x d ↔ Least S minhop maxhop x d
Least-map minhop maxhop f x d = (
  λ h. let (w, l, m, least) = h in ((f x d).0 w, l, m, λ j v n. least j ((f x j).1 v) n),
  λ h. let (w, l, m, least) = h in ((f x d).1 w, l, m, λ j v n. least j ((f x j).0 v) n),
)

pub first_edge : {E : ℕ → ℕ → Type 0} {src : ℕ} (x k : ℕ) → Walk E src x (suc k) → (y : ℕ) × E src y
first_edge x zero (further here e) = (x, e)
first_edge x (suc k) (further {m = m} w e) = first_edge m k w

module _ (table : List Row) (etypes : Option (List ℕ)) (dir : Direction) (src : ℕ)
    (minhop maxhop : ℤ) where
  abbrev rows : List Picked
  rows = pick table etypes

  walks : (x k : ℕ) → Walk (Linked table dir etypes) src x k ↔ Walk (Arc rows dir) src x k
  walks x k = (
    Walk-map (λ m n l. (Linked-Arc table etypes dir m n).1 l),
    Walk-map (λ m n a. (Linked-Arc table etypes dir m n).0 a),
  )

  -- What the compiled graph reports.
  compiled_iff :
      at_least 1 minhop ≡ true
      → (at_least 0 minhop ≡ true → In src (ids_of rows))
      → (x d : ℕ)
      → Least (Walk (Linked table dir etypes) src) minhop maxhop x d
        ↔ In {A = ℕ × ℕ} (x, d) (csr_reach src minhop maxhop (compile table etypes dir))
  unfolding compile csr_reach
  compiled_iff low present x d = elim (Option-cases (index_of (ids_of rows) src)) [
    | inr (home, e) ↦
        let (to, from) = Least-map minhop maxhop walks x d in
        let (back, forth) =
          csr_reach_iff rows dir src home e minhop maxhop (build_key etypes dir)
            (pack (length (ids_of rows)) (edges_of (ids_of rows) (flip dir) rows)) low x d in
        (λ h. forth (to h), λ h. from (back h))
    | inl e ↦ (
      λ h. absurd (let (w, _, m, _) = h in nowhere e d w m),
      λ h. elim (rw (csr_reach, e) at h) [ ],
    )
  ]
    where
      nowhere :
          index_of (ids_of rows) src ≡ none
          → (k : ℕ) → Walk (Linked table dir etypes) src x k
          → at_least k minhop ≡ true
          → ⊥
      nowhere e zero w m = let k = index_of-place_of (ids_of rows) src (present m) in cc (k, e)
      nowhere e (suc k) w m =
          let (y, l) = first_edge x k w in
          let (i, j) = Arc-In rows dir src y ((Linked-Arc table etypes dir src y).1 l) in
          let q = index_of-place_of (ids_of rows) src i in cc (q, e)

-- With minhop 1 at most, and from a node with an edge in the table if minhop is not positive,
-- og_csr_reach on the graph that og_csr_build has just compiled reports the same nodes at the same
-- depths as og_reach on the rows.
pub og_csr_reach_same :
    (table : List Row) (src : ℕ) (etypes : Option (List ℕ)) (letter : ℕ) (dir : Direction)
    (minhop maxhop : ℤ) (held : Option Csr)
    → direction_of letter ≡ ok dir
    → at_least 1 minhop ≡ true
    → (at_least 0 minhop ≡ true → In src (ids_of (pick table etypes)))
    → (out : List (ℕ × ℕ)) × (compiled : List (ℕ × ℕ)) × (og_reach table src etypes letter minhop
          maxhop
        ≡ ok out)
      × (og_csr_reach src minhop maxhop (og_csr_build table etypes dir held).1 ≡ ok compiled)
      × ((n d : ℕ) → In {A = ℕ × ℕ} (n, d) out ↔ In {A = ℕ × ℕ} (n, d) compiled)
unfolding og_csr_reach og_csr_build with_csr
og_csr_reach_same table src etypes letter dir minhop maxhop held e low present =
    let (out, q, _, iff) = og_reach_iff table src etypes letter dir minhop maxhop e low in
    (
      out,
      csr_reach src minhop maxhop (compile table etypes dir),
      q,
      refl,
      λ n d.
          let (a, b) = iff n d in
          let (f, g) = compiled_iff table etypes dir src minhop maxhop low present n d in
          (λ h. f (a h), λ h. b (g h)),
    )
