-- ===== src/Traverse/Counting.antt =====
-- Arrays that are updated in place, and edges counted by their source.
use ontological_db.Base.{
  ℕ, zero, suc, ◌+◌, ◌≡◌, ◌≢◌, ◌≤◌, ◌<◌, refl, sym, ap, subst, ◌∙◌, inl, inr, Bool-cases, ◌==◌,
  ==_iff, ltb, if◌then◌else◌, List, [], ◌∷◌, get_or, set, replicate, length, length-replicate, All,
  arith,
}
use ontological_db.Traverse.Compressed.{add_at, count_sources, sum_up}

pub length-set : (xs : List ℕ) (i v : ℕ) → length (set xs i v) ≡ length xs
length-set [] i v = refl
length-set (x ∷ xs) zero v = refl
length-set (x ∷ xs) (suc i) v = ap suc (length-set xs i v)

pub get_or-set : (xs : List ℕ) (i v : ℕ) → i < length xs → get_or (set xs i v) i 0 ≡ v
get_or-set [] i v h = absurd (omega arith)
get_or-set (x ∷ xs) zero v h = refl
get_or-set (x ∷ xs) (suc i) v h = get_or-set xs i v (omega arith)

pub get_or-set_other : (xs : List ℕ) (i j v : ℕ) → i ≢ j → get_or (set xs i v) j 0 ≡ get_or xs j 0
get_or-set_other [] i j v h = refl
get_or-set_other (x ∷ xs) zero zero v h = absurd (h refl)
get_or-set_other (x ∷ xs) zero (suc j) v h = refl
get_or-set_other (x ∷ xs) (suc i) zero v h = refl
get_or-set_other (x ∷ xs) (suc i) (suc j) v h = get_or-set_other xs i j v (λ e. h (ap suc e))

pub get_or-replicate : (n i : ℕ) → get_or (replicate {A = ℕ} n 0) i 0 ≡ 0
get_or-replicate zero i = refl
get_or-replicate (suc n) zero = refl
get_or-replicate (suc n) (suc i) = get_or-replicate n i

-- How many edges leave a node.
unfoldable pub degree : ℕ → List (ℕ × ℕ) → ℕ
degree i [] = 0
degree i ((s, d) ∷ edges) = (if s == i then 1 else 0) + degree i edges

pub degree_nil : (i : ℕ) → degree i [] ≡ 0
unfolding degree
degree_nil i = refl

pub degree_cons :
    (i s d : ℕ) (edges : List (ℕ × ℕ))
    → degree i ((s, d) ∷ edges) ≡ (if s == i then 1 else 0) + degree i edges
unfolding degree
degree_cons i s d edges = refl

-- How many edges leave the nodes before it.
unfoldable pub below : ℕ → List (ℕ × ℕ) → ℕ
unfolding degree
below zero edges = 0
below (suc i) edges = below i edges + degree i edges

pub below_suc :
    (i : ℕ) (edges : List (ℕ × ℕ)) → below (suc i) edges ≡ below i edges + degree i edges
unfolding below
below_suc i edges = refl

abbrev pub From : ℕ → List (ℕ × ℕ) → Type 0
From n = All (λ (e : ℕ × ℕ). e.0 < n)

below_cons :
    (i s d : ℕ) (edges : List (ℕ × ℕ))
    → below i ((s, d) ∷ edges) ≡ below i edges + (if ltb s i then 1 else 0)
unfolding below degree
below_cons zero s d edges = ground arith
below_cons (suc i) s d edges = ground (arith, below_cons i s d edges)

none_below : (i : ℕ) → below i [] ≤ 0
unfolding below degree
none_below zero = omega arith
none_below (suc i) = let again = none_below i in omega arith

pub below_length : (n : ℕ) (edges : List (ℕ × ℕ)) → below n edges ≤ length edges
below_length n [] = none_below n
below_length n ((s, d) ∷ edges) = ground (arith, below_cons n s d edges, below_length n edges)

pub below_le :
    (i j : ℕ) (edges : List (ℕ × ℕ)) → i < j → below i edges + degree i edges ≤ below j edges
unfolding below
below_le i zero edges h = absurd (omega arith)
below_le i (suc j) edges h = elim (Bool-cases (i == j)) [
  | inl e ↦ rw ((==_iff i j).0 e) (omega arith)
  | inr e ↦ let again = below_le i j edges (ground arith) in omega arith
]

length-count_sources :
    (edges : List (ℕ × ℕ)) (offs : List ℕ) → length (count_sources edges offs) ≡ length offs
unfolding count_sources
length-count_sources [] offs = refl
length-count_sources ((s, d) ∷ edges) offs =
    length-count_sources edges (add_at offs (suc s) 1)
    ∙ length-set offs (suc s) (get_or offs (suc s) 0 + 1)

get_or-count_sources :
    (n : ℕ) (edges : List (ℕ × ℕ)) (offs : List ℕ) (i : ℕ)
    → length offs ≡ suc n
    → From n edges
    → get_or (count_sources edges offs) (suc i) 0 ≡ get_or offs (suc i) 0 + degree i edges
unfolding count_sources
get_or-count_sources n [] offs i l f = let e = degree_nil i in omega arith
get_or-count_sources n ((s, d) ∷ edges) offs i l (h, f) =
    let next = add_at offs (suc s) 1 in
    let again =
      get_or-count_sources n edges next i (length-set offs (suc s) (get_or offs (suc s) 0 + 1) ∙ l)
        f in
    let one = degree_cons i s d edges in
    elim (Bool-cases (s == i)) [
      | inl e ↦
          let q : s ≡ i = (==_iff s i).0 e in
          let here = get_or-set offs (suc s) (get_or offs (suc s) 0 + 1) (omega arith) in
          let moved : get_or next (suc i) 0 ≡ get_or offs (suc i) 0 + 1 =
            subst (λ (x : ℕ). get_or next (suc x) 0 ≡ get_or offs (suc x) 0 + 1) q here in
          let left : degree i ((s, d) ∷ edges) ≡ 1 + degree i edges = rw e at one in omega arith
      | inr e ↦
          let there =
            get_or-set_other offs (suc s) (suc i) (get_or offs (suc s) 0 + 1)
              (λ q. let r : s ≡ i = omega arith in let k = (==_iff s i).1 r in cc (k, e)) in
          let left : degree i ((s, d) ∷ edges) ≡ 0 + degree i edges = rw e at one in omega arith
    ]

count_sources_zero :
    (edges : List (ℕ × ℕ)) (offs : List ℕ) → get_or (count_sources edges offs) 0 0 ≡ get_or offs 0 0
unfolding count_sources
count_sources_zero [] offs = refl
count_sources_zero ((s, d) ∷ edges) offs =
    count_sources_zero edges (add_at offs (suc s) 1)
    ∙ get_or-set_other offs (suc s) 0 (get_or offs (suc s) 0 + 1) (λ e. absurd (omega arith))

length-sum_up : (n i : ℕ) (offs : List ℕ) → length (sum_up n i offs) ≡ length offs
unfolding sum_up
length-sum_up zero i offs = refl
length-sum_up (suc n) i offs =
    length-sum_up n (suc i) (add_at offs (suc i) (get_or offs i 0))
    ∙ length-set offs (suc i) (get_or offs (suc i) 0 + get_or offs i 0)

-- Before `i` the offsets are summed up, behind it they are degrees.
get_or-sum_up :
    (edges : List (ℕ × ℕ)) (n i : ℕ) (offs : List ℕ)
    → i + n < length offs
    → ((j : ℕ) → j ≤ i → get_or offs j 0 ≡ below j edges)
    → ((j : ℕ) → i ≤ j → get_or offs (suc j) 0 ≡ degree j edges)
    → (j : ℕ) → j ≤ i + n
    → get_or (sum_up n i offs) j 0 ≡ below j edges
unfolding sum_up below
get_or-sum_up edges zero i offs l summed raw j h = summed j (omega arith)
get_or-sum_up edges (suc n) i offs l summed raw j h =
    let next = add_at offs (suc i) (get_or offs i 0) in
    let size = length-set offs (suc i) (get_or offs (suc i) 0 + get_or offs i 0) in
    get_or-sum_up edges n (suc i) next (omega arith)
      (λ k m. elim (Bool-cases (k == suc i)) [
        | inl e ↦
            let q : k ≡ suc i = (==_iff k (suc i)).0 e in
            let here =
              get_or-set offs (suc i) (get_or offs (suc i) 0 + get_or offs i 0) (omega arith) in
            let a = raw i (omega arith) in
            let b = summed i (omega arith) in rw (q, here) (omega arith)
        | inr e ↦
            get_or-set_other offs (suc i) k (get_or offs (suc i) 0 + get_or offs i 0)
              (λ q. let r = (==_iff k (suc i)).1 (sym q) in cc (r, e))
            ∙ summed k (ground arith)
      ])
      (λ k m.
        get_or-set_other offs (suc i) (suc k) (get_or offs (suc i) 0 + get_or offs i 0)
          (λ q. absurd (omega arith))
        ∙ raw k (omega arith))
      j (omega arith)

abbrev pub offsets : ℕ → List (ℕ × ℕ) → List ℕ
offsets n edges = sum_up n 0 (count_sources edges (replicate (n + 1) 0))

pub get_or-offsets :
    (n : ℕ) (edges : List (ℕ × ℕ)) (i : ℕ)
    → From n edges
    → i ≤ n
    → get_or (offsets n edges) i 0 ≡ below i edges
unfolding below
get_or-offsets n edges i f h =
    let zeros : List ℕ = replicate (n + 1) 0 in
    let size : length zeros ≡ suc n = length-replicate (n + 1) 0 ∙ omega arith in
    let counted = length-count_sources edges zeros in
    get_or-sum_up edges n 0 (count_sources edges zeros) (omega arith)
      (λ j l.
        let q : j ≡ 0 = omega arith in
        rw q (count_sources_zero edges zeros ∙ get_or-replicate (n + 1) 0))
      (λ j l.
        get_or-count_sources n edges zeros j size f
        ∙ rw (get_or-replicate (n + 1) (suc j)) (omega arith))
      i (omega arith)

pub length-offsets : (n : ℕ) (edges : List (ℕ × ℕ)) → length (offsets n edges) ≡ suc n
length-offsets n edges =
    let zeros : List ℕ = replicate (n + 1) 0 in
    length-sum_up n 0 (count_sources edges zeros)
    ∙ length-count_sources edges zeros
    ∙ length-replicate (n + 1) 0
    ∙ omega arith
