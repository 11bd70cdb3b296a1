-- ===== src/Traverse/Distances.antt =====
-- Walks in both directions, and distances from one end of the bidirectional search of
-- engine/src/storage/traverse.rs.
use ontological_db.Base.{
  ℕ, zero, suc, ◌+◌, ◌≡◌, ◌≢◌, ◌≤◌, sym, subst, ◌⊎◌, inl, inr, Bool-cases, ◌==◌, ==_iff, ltb,
  ltb→lt, ltb-false→le, List, [], Option, some, arith,
}
use ontological_db.Base.Members.{In}
use ontological_db.Traverse.Levels.{Walk, here, further}
use ontological_db.Traverse.Compressed.{Adj, of}
use ontological_db.Traverse.Hops.{hop_at, Level, i32_max}
use ontological_db.Traverse.Scanned.{Scanned}
use ontological_db.Traverse.Touching.{Around}

pub Walk-append :
    {E : ℕ → ℕ → Type 0} (x y z i j : ℕ) → Walk E x y i → Walk E y z j → Walk E x z (i + j)
Walk-append {E = E} x y z i zero v here = subst (λ n. Walk E x y n) (omega arith) v
Walk-append {E = E} x y z i (suc j) v (further {m = m} w e) =
    subst (λ n. Walk E x z n) (omega arith) (further (Walk-append x y m i j v w) e)

Walk-last : {E : ℕ → ℕ → Type 0} (s d n : ℕ) → Walk E s d (suc n) → (m : ℕ) × Walk E s m n × E m d
Walk-last s d n (further {m = m} v e) = (m, v, e)

module _ (E F : ℕ → ℕ → Type 0) (turn : (m n : ℕ) → E m n → F n m) where
  pub Walk-back : (s x k : ℕ) → Walk E s x k → Walk F x s k
  Walk-back s x zero here = here
  Walk-back s x (suc k) (further {m = m} w e) =
      subst (λ n. Walk F x s n) (omega arith)
        (Walk-append x m s 1 k (further here (turn m x e)) (Walk-back s m k w))

  -- A walk is split after any number of its edges.
  pub Walk-split : (s d i j : ℕ) → Walk E s d (i + j) → (m : ℕ) × Walk E s m i × Walk F d m j
  Walk-split s d i zero w = (d, subst (λ n. Walk E s d n) (omega arith) w, here)
  Walk-split s d i (suc j) w =
      let (m, v, e) = Walk-last s d (i + j) (subst (λ n. Walk E s d n) (omega arith) w) in
      let (p, a, b) = Walk-split s m i j v in
      (
        p,
        a,
        subst (λ n. Walk F d p n) (omega arith)
            (Walk-append d m p 1 j (further here (turn m d e)) b),
      )

-- A hop along an adjacency.
abbrev pub Along : Adj → ℕ → ℕ → Type 0
Along adj m n = In n (of adj m)

-- The distances of all nodes up to a radius.
pub record Near (E : ℕ → ℕ → Type 0) (s a : ℕ) (near : List (Option ℕ)) : Type 0 where
  pub walked : (x k : ℕ) → hop_at near x ≡ some k → Walk E s x k × (k ≤ a)
  pub reached : (x j : ℕ) → Walk E s x j → j ≤ a → (k : ℕ) × (k ≤ j) × (hop_at near x ≡ some k)

-- The nodes at the radius.
pub record Front (a : ℕ) (near : List (Option ℕ)) (f : List ℕ) : Type 0 where
  pub at_radius : (x : ℕ) → In x f → hop_at near x ≡ some a
  pub listed : (x : ℕ) → hop_at near x ≡ some a → In x f

module _ (adj : Adj) (s a : ℕ) (f : List ℕ) (near far : List (Option ℕ)) (t : Level)
    (n : Near (Along adj) s a near) (r : Front a near f)
    (c : Scanned far
      (suc a)
      (Around adj f)
      (record { near = near; next = []; best = i32_max })
      t) where
  -- The neighbours of the nodes at the radius are walked to with one edge more.
  Around-Walk : (x : ℕ) → Around adj f x → Walk (Along adj) s x (suc a)
  Around-Walk x (m, i, e) = further (n.walked m a (r.at_radius m i)).0 e

  -- Whatever has a walk of one edge more is near already or a neighbour.
  pub Walk-Around :
      (x : ℕ)
      → Walk (Along adj) s x (suc a)
      → ((k : ℕ) × (k ≤ a) × (hop_at near x ≡ some k)) ⊎ Around adj f x
  Walk-Around x (further {m = m} w e) =
      let (k, l, g) = n.reached m a w (omega arith) in
      elim (Bool-cases (k == a)) [
        | inl q ↦ inr (m, r.listed m (rw ((==_iff k a).0 q) at g), e)
        | inr q ↦
            let ne : k ≢ a = (λ p. let z = (==_iff k a).1 p in cc (z, q)) in
            let (v, b) = n.walked m k g in
            let (i, u, h) = n.reached x (suc k) (further v e) (omega arith) in
            inl (i, omega arith, h)
      ]

  pub Near-level : Near (Along adj) s (suc a) t.near
  Near-level = record {
    walked = λ x k e. elim (c.origin x k e) [
      | inl g ↦ let (w, l) = n.walked x k g in (w, omega arith)
      | inr h ↦
          let (g, p, q) = h in
          (subst (λ i. Walk (Along adj) s x i) (sym q) (Around-Walk x p), omega arith)
    ];
    reached = λ x j w l. elim (Bool-cases (ltb a j)) [
      | inr q ↦ let (k, b, e) = n.reached x j w (ltb-false→le a j q) in (k, b, c.kept x k e)
      | inl q ↦
          let b = ltb→lt a j q in
          let same : j ≡ suc a = omega arith in
          elim (Walk-Around x (subst (λ i. Walk (Along adj) s x i) same w)) [
            | inl h ↦ let (k, d, e) = h in (k, omega arith, c.kept x k e)
            | inr p ↦
                let (k, e) = c.seen x p in
                elim (c.origin x k e) [
                  | inl g ↦ let (v, d) = n.walked x k g in (k, omega arith, e)
                  | inr h ↦ let (g, z, d) = h in (k, omega arith, e)
                ]
          ]
    ];
  }

  pub Front-level : Front (suc a) t.near t.next
  Front-level = record {
    at_radius = λ x i. elim (c.next_from x i) [
      | inl z ↦ elim z [ ]
      | inr h ↦
          let (g, p) = h in
          let (k, e) = c.seen x p in
          elim (c.origin x k e) [
            | inl u ↦ absurd (cc (g, u))
            | inr u ↦ let (z, y, d) = u in rw (sym d) e
          ]
    ];
    listed = λ x e. elim (c.origin x (suc a) e) [
      | inl g ↦ absurd (let (w, l) = n.walked x (suc a) g in omega arith)
      | inr h ↦ let (g, p, q) = h in c.next_new x g p
    ];
  }
