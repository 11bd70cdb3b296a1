-- ===== src/Traverse/Packing.antt =====
-- `pack` of engine/src/storage/traverse.rs, a counting sort: the neighbours of each node stand
-- together, in the order of the edges.
use ontological_db.Base.{
  length-take, length-drop, ap₂, ℕ, zero, suc, ◌+◌, ◌-◌, ◌≡◌, ◌≢◌, ◌≤◌, ◌<◌, refl, sym, ap, subst,
  ◌∙◌, inl, inr, false, Bool-cases, ◌==◌, ==_iff, if◌then◌else◌, List, [], ◌∷◌, get_or, set, take,
  drop, replicate, length, length-replicate, arith,
}
use ontological_db.Traverse.Compressed.{of, pack, add_at, place}
use ontological_db.Traverse.Counting.{
  length-set, get_or-set, get_or-set_other, degree, degree_nil, degree_cons, below, below_length,
  below_le, below_suc, From, offsets, get_or-offsets, length-offsets,
}
use ontological_db.Traverse.Stretches.{Room, Free, stretch, Room-next, Free-next, Free-filled}

-- The ends of the edges that leave a node, in order.
unfoldable pub targets : ℕ → List (ℕ × ℕ) → List ℕ
targets i [] = []
targets i ((s, d) ∷ edges) = if s == i then d ∷ targets i edges else targets i edges

length-targets : (i : ℕ) (edges : List (ℕ × ℕ)) → length (targets i edges) ≡ degree i edges
unfolding targets
length-targets i [] = sym (degree_nil i)
length-targets i ((s, d) ∷ edges) =
    let again = length-targets i edges in
    elim (Bool-cases (s == i)) [
      | inl e ↦ rw (degree_cons i s d edges, e) (omega arith)
      | inr e ↦ rw (degree_cons i s d edges, e) (omega arith)
    ]

length-place :
    (edges : List (ℕ × ℕ)) (fill nbrs : List ℕ) → length (place edges fill nbrs) ≡ length nbrs
unfolding place
length-place [] fill nbrs = refl
length-place ((s, d) ∷ edges) fill nbrs =
    length-place edges (add_at fill s 1) (set nbrs (get_or fill s 0) d)
    ∙ length-set nbrs (get_or fill s 0) d

place-Free :
    (n : ℕ) (edges : List (ℕ × ℕ)) (fill nbrs : List ℕ) (x : ℕ)
    → From n edges
    → Room n (length nbrs) edges fill
    → Free n edges fill x
    → get_or (place edges fill nbrs) x 0 ≡ get_or nbrs x 0
unfolding place
place-Free n [] fill nbrs x h r f = refl
place-Free n ((s, d) ∷ edges) fill nbrs x (h, hs) r f =
    let e = length-set nbrs (get_or fill s 0) d in
    let away : get_or fill s 0 ≢ x = λ q. elim (f s h) [
      | inl b ↦ absurd (omega arith)
      | inr b ↦
          let l = r.enough in
          elim (stretch s d s edges fill (omega arith)) [
            | inl (p, u, v) ↦ absurd (omega arith)
            | inr (p, u, v) ↦ absurd (p refl)
          ]
    ] in
    place-Free n edges (add_at fill s 1) (set nbrs (get_or fill s 0) d) x hs
      (subst (λ (y : ℕ). Room n y edges (add_at fill s 1)) (sym e) (Room-next h r))
      (Free-next h r f)
    ∙ get_or-set_other nbrs (get_or fill s 0) x d away

place-targets :
    (n : ℕ) (edges : List (ℕ × ℕ)) (fill nbrs : List ℕ) (i k : ℕ)
    → From n edges
    → Room n (length nbrs) edges fill
    → i < n
    → k < degree i edges
    → get_or (place edges fill nbrs) (get_or fill i 0 + k) 0 ≡ get_or (targets i edges) k 0
unfolding place targets
place-targets n [] fill nbrs i k h r a b = let e = degree_nil i in absurd (omega arith)
place-targets n ((s, d) ∷ edges) fill nbrs i k (h, hs) r a b =
    let again : Later =
      λ j c. place-targets n edges (add_at fill s 1) (set nbrs at d) i j hs room a c in
    elim (stretch s d i edges fill (let l = r.enough in omega arith)) [
      | inr (away, u, v) ↦
          let same : get_or fill i 0 + k ≡ get_or (add_at fill s 1) i 0 + k = omega arith in
          rw (same, differs away) (again k (omega arith))
      | inl (q, u, v) ↦ rw ((==_iff s i).1 q) (own again q u v k b)
    ]
  where
    at : ℕ
    at = get_or fill s 0

    result : List ℕ
    result = place edges (add_at fill s 1) (set nbrs at d)

    Later : Type 0
    Later =
        (j : ℕ)
        → j < degree i edges
        → get_or result (get_or (add_at fill s 1) i 0 + j) 0 ≡ get_or (targets i edges) j 0

    room : Room n (length (set nbrs at d)) edges (add_at fill s 1)
    room =
        subst (λ (y : ℕ). Room n y edges (add_at fill s 1)) (sym (length-set nbrs at d))
          (Room-next h r)

    differs : s ≢ i → (s == i) ≡ false
    differs away = elim (Bool-cases (s == i)) [
      | inl e ↦ absurd (away ((==_iff s i).0 e))
      | inr e ↦ e
    ]

    own :
        Later
        → s ≡ i
        → get_or (add_at fill s 1) i 0 ≡ get_or fill i 0 + 1
        → degree i ((s, d) ∷ edges) ≡ 1 + degree i edges
        → (j : ℕ) → j < degree i ((s, d) ∷ edges)
        → get_or result (get_or fill i 0 + j) 0 ≡ get_or (d ∷ targets i edges) j 0
    own again q u v zero c =
        let here : get_or fill i 0 + 0 ≡ at =
          (omega arith) ∙ ap (λ (x : ℕ). get_or fill x 0) (sym q) in
        let inside = r.inside i a in
        rw here (
          place-Free n edges (add_at fill s 1) (set nbrs at d) at hs room (Free-filled h r)
          ∙ get_or-set nbrs at d (omega arith))
    own again q u v (suc j) c =
        let same : get_or fill i 0 + suc j ≡ get_or (add_at fill s 1) i 0 + j = omega arith in
        rw same (again j (omega arith))

get_or-drop : (a k : ℕ) (xs : List ℕ) → get_or (drop a xs) k 0 ≡ get_or xs (a + k) 0
get_or-drop zero k xs = ap (λ (j : ℕ). get_or xs j 0) (omega arith)
get_or-drop (suc a) k [] = refl
get_or-drop (suc a) k (x ∷ xs) =
    get_or-drop a k xs
    ∙ ap (λ (j : ℕ). get_or (x ∷ xs) j 0) (let e : suc (a + k) ≡ suc a + k = omega arith in e)

get_or-take : (m k : ℕ) (xs : List ℕ) → k < m → get_or (take m xs) k 0 ≡ get_or xs k 0
get_or-take zero k xs h = absurd (omega arith)
get_or-take (suc m) k [] h = refl
get_or-take (suc m) zero (x ∷ xs) h = refl
get_or-take (suc m) (suc k) (x ∷ xs) h = get_or-take m k xs (omega arith)

-- Two lists of one length that agree everywhere are equal.
same_everywhere :
    (xs ys : List ℕ)
    → length xs ≡ length ys
    → ((k : ℕ) → k < length ys → get_or xs k 0 ≡ get_or ys k 0)
    → xs ≡ ys
same_everywhere [] [] l h = refl
same_everywhere [] (y ∷ ys) l h = absurd (omega arith)
same_everywhere (x ∷ xs) [] l h = absurd (omega arith)
same_everywhere (x ∷ xs) (y ∷ ys) l h =
    ap₂ (λ (a : ℕ) (rest : List ℕ). a ∷ rest) (h 0 (omega arith))
      (same_everywhere xs ys (omega arith) (λ k b. h (suc k) (omega arith)))

-- The neighbours of a node in the compressed arrays are the ends of its edges, in their order, whenever
-- all edges leave nodes in range.
pub of-pack :
    (n : ℕ) (edges : List (ℕ × ℕ)) (i : ℕ)
    → From n edges
    → i < n
    → of (pack n edges) i ≡ targets i edges
unfolding of pack
of-pack n edges i f h = same_everywhere _ _ sizes (λ k b.
    let l = length-targets i edges in
    let x = from in
    let y = to in
    get_or-take (last - start) k (drop start nbrs) (omega arith)
    ∙ get_or-drop start k nbrs
    ∙ place-targets n edges (offsets n edges) zeros i k f room h (omega arith))
  where
    zeros : List ℕ
    zeros = replicate (length edges) 0

    nbrs : List ℕ
    nbrs = place edges (offsets n edges) zeros

    start : ℕ
    start = get_or (offsets n edges) i 0

    last : ℕ
    last = get_or (offsets n edges) (suc i) 0

    from : start ≡ below i edges
    from = get_or-offsets n edges i f (omega arith)

    to : last ≡ below i edges + degree i edges
    to = get_or-offsets n edges (suc i) f (omega arith) ∙ below_suc i edges

    fits : (j : ℕ) → j < n → below j edges + degree j edges ≤ length edges
    fits j l = let a = below_le j n edges l in let b = below_length n edges in omega arith

    size : length zeros ≡ length edges
    size = length-replicate (length edges) 0

    room : Room n (length zeros) edges (offsets n edges)
    room = record {
      enough = let l = length-offsets n edges in omega arith;
      ordered = λ j k a b.
          let x = get_or-offsets n edges j f (omega arith) in
          let y = get_or-offsets n edges k f (omega arith) in
          let z = below_le j k edges a in omega arith;
      inside = λ j a.
          let x = get_or-offsets n edges j f (omega arith) in
          let z = fits j a in let l = size in omega arith;
    }

    sizes : length (take (last - start) (drop start nbrs)) ≡ length (targets i edges)
    sizes =
        let a = length-take (last - start) (drop start nbrs) in
        let b = length-drop start nbrs in
        let c = length-place edges (offsets n edges) zeros in
        let d = length-targets i edges in
        let e = fits i h in let l = size in let x = from in let y = to in omega arith
