-- ===== src/Traverse/Turning.antt =====
-- The two directions of the compiled graph of engine/src/storage/traverse.rs.
use ontological_db.Base.{
  ℕ, zero, suc, ◌-◌, ◌≡◌, ◌≤◌, ◌<◌, ◌↔◌, refl, sym, subst, inl, inr, Bool-cases, ltb, ltb→lt,
  ltb-false→le, List, [], ◌∷◌, get_or, take, drop, length, arith,
}
use ontological_db.Base.Members.{In}
use ontological_db.Traverse.Heap.{Direction}
use ontological_db.Traverse.Compressed.{of, pack}
use ontological_db.Traverse.Counting.{offsets, length-offsets}
use ontological_db.Traverse.Packing.{of-pack, targets}
use ontological_db.Traverse.Csr.{Picked, flip, ids_of, place_of}
use ontological_db.Traverse.Positions.{
  Arc, Arc-In, In-edges_of, edges_of-In, In-targets, index_of_at, index_of-place_of,
}
use ontological_db.Traverse.CsrAnswers.{edges, fwd, edges-From}
use ontological_db.Traverse.Distances.{Along}
use ontological_db.Traverse.Meetings.{Turned}

get_or_outside : (xs : List ℕ) (i : ℕ) → length xs ≤ i → get_or xs i 0 ≡ 0
get_or_outside [] i h = refl
get_or_outside (x ∷ xs) zero h = absurd (omega arith)
get_or_outside (x ∷ xs) (suc i) h = get_or_outside xs i (omega arith)

of-pack_outside : (n : ℕ) (es : List (ℕ × ℕ)) (i : ℕ) → n ≤ i → of (pack n es) i ≡ []
unfolding of pack
of-pack_outside n es i h =
    let size = length-offsets n es in
    let last : get_or (offsets n es) (suc i) 0 ≡ 0 =
      get_or_outside (offsets n es) (suc i) (omega arith) in
    let none : get_or (offsets n es) (suc i) 0 - get_or (offsets n es) i 0 ≡ 0 = omega arith in
    subst (λ (k : ℕ). take k (drop (get_or (offsets n es) i 0) (pack n es).nbrs) ≡ []) (sym none)
      refl

module _ (rows : List Picked) where
  -- Hops are the edges that were packed.
  Along-edges :
      (want : Direction) (p q : ℕ)
      → Along (fwd rows want) p q ↔ In {A = ℕ × ℕ} (p, q) (edges rows want)
  Along-edges want p q = elim (Bool-cases (ltb p size)) [
    | inl e ↦ rw (packed (ltb→lt p size e)) (In-targets p q (edges rows want))
    | inr e ↦
        let none = of-pack_outside size (edges rows want) p (ltb-false→le p size e) in
        (
          λ h. elim (rw none at h) [ ],
          λ h. absurd (let l = inside_src h in let k = ltb-false→le p size e in omega arith),
        )
  ]
    where
      size : ℕ
      size = length (ids_of rows)

      packed : p < size → of (fwd rows want) p ≡ targets p (edges rows want)
      packed = of-pack size (edges rows want) p (edges-From rows want)

      inside_src : In {A = ℕ × ℕ} (p, q) (edges rows want) → p < size
      inside_src h =
          let (m, n, a, e, f) = In-edges_of (ids_of rows) want rows p q h in
          rw e
            (index_of_at (ids_of rows) m (place_of (ids_of rows) m)
              (index_of-place_of (ids_of rows) m (Arc-In rows want m n a).0)).0

  pub Along-inside :
      (want : Direction) (p q : ℕ) → Along (fwd rows want) p q → q < length (ids_of rows)
  Along-inside want p q h =
      let (m, n, a, e, f) = In-edges_of (ids_of rows) want rows p q ((Along-edges want p q).0 h) in
      rw f
        (index_of_at (ids_of rows) n (place_of (ids_of rows) n)
          (index_of-place_of (ids_of rows) n (Arc-In rows want m n a).1)).0

  turn :
      (want back : Direction)
      → ((m n : ℕ) → Arc rows want m n → Arc rows back n m)
      → (p q : ℕ) → Along (fwd rows want) p q
      → Along (fwd rows back) q p
  turn want back f p q h =
      let (m, n, a, e, g) = In-edges_of (ids_of rows) want rows p q ((Along-edges want p q).0 h) in
      (Along-edges back q p).1 (rw (e, g) (edges_of-In (ids_of rows) back rows n m (f m n a)))

  pub fwd-Turned :
      (want : Direction)
      → ((m n : ℕ) → Arc rows want m n ↔ Arc rows (flip want) n m)
      → Turned (fwd rows want) (fwd rows (flip want))
  fwd-Turned want f p q =
      (turn want (flip want) (λ m n. (f m n).0) p q, turn (flip want) want (λ m n. (f n m).1) q p)
