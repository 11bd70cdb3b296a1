-- ===== src/Traverse/Meetings.antt =====
-- Where the two searches of og_csr_hops in engine/src/storage/traverse.rs meet.
use ontological_db.Base.{
  ℕ, zero, suc, ◌+◌, ◌-◌, ◌≡◌, ◌≢◌, ◌≤◌, ◌<◌, ◌↔◌, sym, subst, inl, inr, Bool-cases, ◌==◌, ==_iff,
  ltb, ltb→lt, ltb-false→le, List, [], Option, some, arith,
}
use ontological_db.Traverse.Levels.{Walk}
use ontological_db.Traverse.Compressed.{Adj}
use ontological_db.Traverse.Hops.{hop_at, Level, i32_max}
use ontological_db.Traverse.Scanned.{Scanned}
use ontological_db.Traverse.Touching.{Around}
use ontological_db.Traverse.Distances.{
  Walk-append, Walk-back, Walk-split, Along, Near, Front, Near-level, Walk-Around,
}

-- Each adjacency is the other turned around.
abbrev pub Turned : Adj → Adj → Type 0
Turned adj back = (m n : ℕ) → Along adj m n ↔ Along back n m

-- No walk of at most `h` edges is as short as the two radii together.
abbrev pub Apart : Adj → ℕ → ℕ → ℕ → ℕ → ℕ → Type 0
Apart adj s d h a b = (l : ℕ) → Walk (Along adj) s d l → l ≤ h → a + b < l

module _ (adj back : Adj) (turned : Turned adj back) (s d h a b : ℕ) (f : List ℕ)
    (near far : List (Option ℕ)) (n : Near (Along adj) s a near) (r : Front a near f)
    (m : Near (Along back) d b far) (apart : Apart adj s d h a b) where
  -- A walk to a node and one back to it from the other end.
  joined :
      (x i j : ℕ) → Walk (Along adj) s x i → Walk (Along back) d x j → Walk (Along adj) s d (i + j)
  joined x i j v w =
      Walk-append s x d i j v
        (Walk-back (Along back) (Along adj) (λ p q e. (turned q p).1 e) d x j w)

  halves :
      (i j : ℕ)
      → Walk (Along adj) s d (i + j)
      → (x : ℕ) × Walk (Along adj) s x i × Walk (Along back) d x j
  halves = Walk-split (Along adj) (Along back) (λ p q. (turned p q).0) s d

  -- A side without a frontier leaves no walk.
  pub empty_front : f ≡ [] → (l : ℕ) → Walk (Along adj) s d l → h < l
  empty_front e l w = elim (Bool-cases (ltb h l)) [
    | inl q ↦ ltb→lt h l q
    | inr q ↦ absurd (descend l l (omega arith) w (ltb-false→le h l q))
  ]
    where
      descend : (fuel k : ℕ) → k ≤ fuel → Walk (Along adj) s d k → k ≤ h → ⊥
      descend zero k p v u = let z = apart k v u in omega arith
      descend (suc fuel) k p v u =
          let z = apart k v u in
          let (x, v1, v2) =
            halves a (k - a) (subst (λ y. Walk (Along adj) s d y) (omega arith) v) in
          let (i, g, c) = n.reached x a v1 (omega arith) in
          elim (Bool-cases (i == a)) [
            | inl q ↦ nobody x (rw ((==_iff i a).0 q) at c)
            | inr q ↦
                let ne : i ≢ a = (λ o. let y = (==_iff i a).1 o in cc (y, q)) in
                descend fuel (i + (k - a)) (omega arith) (joined x i (k - a) (n.walked x i c).0 v2)
                  (omega arith)
          ]
        where
          nobody : (x : ℕ) → hop_at near x ≡ some a → ⊥
          nobody x c = elim (rw e at r.listed x c) [ ]

  -- At maxhop no walk is left.
  pub at_bound : h ≤ a → (l : ℕ) → Walk (Along adj) s d l → h < l
  at_bound g l w = elim (Bool-cases (ltb h l)) [
    | inl q ↦ ltb→lt h l q
    | inr q ↦ absurd (let u = ltb-false→le h l q in let z = apart l w u in omega arith)
  ]

  module _ (t : Level)
      (c : Scanned far
        (suc a)
        (Around adj f)
        (record { near = near; next = []; best = i32_max })
        t) where
    next_near : Near (Along adj) s (suc a) t.near
    next_near = Near-level adj s a f near far t n r c

    -- A meeting within the bound is a shortest walk.
    pub meeting_shortest :
        t.best ≤ h
        → h < i32_max
        → Walk (Along adj) s d t.best × ((l : ℕ) → Walk (Along adj) s d l → t.best ≤ l)
    meeting_shortest p u = elim c.best_from [
      | inl e ↦ absurd (omega arith)
      | inr k ↦
          let (x, i, j, e, g, q) = k in
          let (v, y) = next_near.walked x i e in
          let (w, z) = m.walked x j g in
          (
            subst (λ o. Walk (Along adj) s d o) (sym q) (joined x i j v w),
            λ l o. elim (Bool-cases (ltb h l)) [
              | inl b1 ↦ let b2 = ltb→lt h l b1 in omega arith
              | inr b1 ↦ let b2 = apart l o (ltb-false→le h l b1) in omega arith
            ],
          )
    ]

    -- Without a meeting within the bound, the ends are further apart.
    pub no_meeting : h < t.best → Apart adj s d h (suc a) b
    no_meeting p l w u =
        let z = apart l w u in
        elim (Bool-cases (ltb (suc a + b) l)) [
          | inl q ↦ ltb→lt (suc a + b) l q
          | inr q ↦
              let y = ltb-false→le (suc a + b) l q in
              absurd
                (impossible (subst (λ o. Walk (Along adj) s d o) (omega arith) w) (omega arith))
        ]
      where
        impossible : Walk (Along adj) s d (suc a + b) → suc a + b ≤ h → ⊥
        impossible w u =
            let (x, v1, v2) = halves (suc a) b w in
            elim (Walk-Around adj s a f near far t n r c x v1) [
              | inl k ↦
                  let (i, g, e) = k in
                  let z = apart (i + b) (joined x i b (n.walked x i e).0 v2) (omega arith) in
                  omega arith
              | inr k ↦
                  let (j, g, e) = m.reached x b v2 (omega arith) in
                  let (i, o) = c.seen x k in
                  let y = c.best_meet x i j k o e in
                  let (v, q) = next_near.walked x i o in omega arith
            ]
