-- ===== src/Traverse/Stretches.antt =====
-- The stretches of the array that `pack` of engine/src/storage/traverse.rs fills, one for each node.
use ontological_db.Base.{
  ltb, ltb→lt, ℕ, ◌+◌, ◌≡◌, ◌≢◌, ◌≤◌, ◌<◌, refl, sym, ap, subst, ◌⊎◌, inl, inr, Bool-cases, ◌==◌,
  ==_iff, List, ◌∷◌, get_or, length, arith,
}
use ontological_db.Traverse.Compressed.{add_at}
use ontological_db.Traverse.Counting.{length-set, get_or-set, get_or-set_other, degree, degree_cons}

-- The stretches that are still to be filled follow one another, and there is room for them.
pub record Room (n size : ℕ) (edges : List (ℕ × ℕ)) (fill : List ℕ) : Type 0 where
  pub enough : n ≤ length fill
  pub ordered : (i j : ℕ) → i < j → j < n → get_or fill i 0 + degree i edges ≤ get_or fill j 0
  pub inside : (i : ℕ) → i < n → get_or fill i 0 + degree i edges ≤ size

-- A place in none of the stretches.
abbrev pub Free : ℕ → List (ℕ × ℕ) → List ℕ → ℕ → Type 0
Free n edges fill x =
    (i : ℕ) → i < n → (x < get_or fill i 0) ⊎ (get_or fill i 0 + degree i edges ≤ x)

-- What the step from one edge to the next does to a stretch.
pub stretch :
    (s d i : ℕ) (edges : List (ℕ × ℕ)) (fill : List ℕ)
    → s < length fill
    → ((s ≡ i)
        × (get_or (add_at fill s 1) i 0 ≡ get_or fill i 0 + 1)
        × (degree i ((s, d) ∷ edges) ≡ 1 + degree i edges))
      ⊎ ((s ≢ i)
          × (get_or (add_at fill s 1) i 0 ≡ get_or fill i 0)
          × (degree i ((s, d) ∷ edges) ≡ degree i edges))
stretch s d i edges fill h =
    let one = degree_cons i s d edges in
    elim (Bool-cases (s == i)) [
      | inl e ↦
          let q : s ≡ i = (==_iff s i).0 e in
          inl (
            q,
            subst (λ (x : ℕ). get_or (add_at fill s 1) x 0 ≡ get_or fill x 0 + 1) q
                (get_or-set fill s (get_or fill s 0 + 1) h),
            rw e at one,
          )
      | inr e ↦
          let away : s ≢ i = λ q. let k = (==_iff s i).1 q in cc (k, e) in
          let left : degree i ((s, d) ∷ edges) ≡ 0 + degree i edges = rw e at one in
          inr (away, get_or-set_other fill s i (get_or fill s 0 + 1) away, omega arith)
    ]

pub Room-next :
    {n size s d : ℕ} {edges : List (ℕ × ℕ)} {fill : List ℕ}
    → s < n
    → Room n size ((s, d) ∷ edges) fill
    → Room n size edges (add_at fill s 1)
Room-next {n} {size} {s} {d} {edges} {fill} h r = record {
  enough = let l = length-set fill s (get_or fill s 0 + 1) in let e = r.enough in omega arith;
  ordered = λ i j a b.
      let o = r.ordered i j a b in
      let l = r.enough in
      elim (stretch s d i edges fill (omega arith)) [
        | inl (p, x, y) ↦ elim (stretch s d j edges fill (omega arith)) [
          | inl (q, u, v) ↦ omega arith
          | inr (q, u, v) ↦ omega arith
        ]
        | inr (p, x, y) ↦ elim (stretch s d j edges fill (omega arith)) [
          | inl (q, u, v) ↦ omega arith
          | inr (q, u, v) ↦ omega arith
        ]
      ];
  inside = λ i a.
      let o = r.inside i a in
      let l = r.enough in
      elim (stretch s d i edges fill (omega arith)) [
        | inl (p, x, y) ↦ omega arith
        | inr (p, x, y) ↦ omega arith
      ];
}

pub Free-next :
    {n size s d x : ℕ} {edges : List (ℕ × ℕ)} {fill : List ℕ}
    → s < n
    → Room n size ((s, d) ∷ edges) fill
    → Free n ((s, d) ∷ edges) fill x
    → Free n edges (add_at fill s 1) x
Free-next {n} {size} {s} {d} {x} {edges} {fill} h r f i a =
    let l = r.enough in
    elim (f i a) [
      | inl b ↦ elim (stretch s d i edges fill (omega arith)) [
        | inl (q, u, v) ↦ inl (omega arith)
        | inr (q, u, v) ↦ inl (omega arith)
      ]
      | inr b ↦ elim (stretch s d i edges fill (omega arith)) [
        | inl (q, u, v) ↦ inr (omega arith)
        | inr (q, u, v) ↦ inr (omega arith)
      ]
    ]

-- The place that is filled now is free afterwards.
pub Free-filled :
    {n size s d : ℕ} {edges : List (ℕ × ℕ)} {fill : List ℕ}
    → s < n
    → Room n size ((s, d) ∷ edges) fill
    → Free n edges (add_at fill s 1) (get_or fill s 0)
Free-filled {n} {size} {s} {d} {edges} {fill} h r i a =
    let l = r.enough in
    elim (stretch s d i edges fill (omega arith)) [
      | inl (q, u, v) ↦
          let e : get_or fill i 0 ≡ get_or fill s 0 = ap (λ (x : ℕ). get_or fill x 0) (sym q) in
          inl (omega arith)
      | inr (q, u, v) ↦ elim (Bool-cases (ltb i s)) [
        | inl e ↦ let o = r.ordered i s (ltb→lt i s e) h in inr (omega arith)
        | inr e ↦
            let o = r.ordered s i (ground arith) a in
            elim (stretch s d s edges fill (omega arith)) [
              | inl (p, x, y) ↦ inl (omega arith)
              | inr (p, x, y) ↦ absurd (p refl)
            ]
      ]
    ]
