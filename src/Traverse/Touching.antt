-- ===== src/Traverse/Touching.antt =====
-- `level` of engine/src/storage/traverse.rs scans its frontier: each neighbour, and all of them.
use ontological_db.Base.{
  ℕ, suc, ◌+◌, ◌≡◌, ◌≢◌, ◌≤◌, ◌<◌, refl, sym, ap, ◌∙◌, ◌⊎◌, inl, inr, true, false, Bool-cases,
  Option-cases, ◌==◌, ==_iff, min, ltb, ltb→lt, ltb-false→le, List, [], ◌∷◌, Option, none, some,
  length, arith,
}
use ontological_db.Base.Int.{ℤ}
use ontological_db.Base.Members.{In, first, later, In-append, In-append_left, In-append_right}
use ontological_db.Traverse.Heap.{at_least}
use ontological_db.Traverse.Steps.{In-front}
use ontological_db.Traverse.Compressed.{Adj, of}
use ontological_db.Traverse.Hops.{
  hop_at, Level, i32_max, discover_hop, meet, touches, hop_from, level_over, level,
}
use ontological_db.Traverse.Scanned.{
  length-set, hop_at-set, hop_at-set_other, Scanned, Scanned-nothing, Scanned-after, Scanned-same,
}

min-cases : (a b : ℕ) → (min a b ≡ a) ⊎ (min a b ≡ b)
min-cases a b = elim (Bool-cases (ltb a b)) [
  | inl e ↦ inl (let l = ltb→lt a b e in omega arith)
  | inr e ↦ inr (let l = ltb-false→le a b e in omega arith)
]

-- A meeting keeps the distances, and takes the sum at the neighbour into account.
meet_facts :
    (far : List (Option ℕ)) (m k : ℕ) (t : Level)
    → hop_at t.near m ≡ some k
    → ((meet far m t).near ≡ t.near)
      × ((meet far m t).next ≡ t.next)
      × ((meet far m t).best ≤ t.best)
      × ((j : ℕ) → hop_at far m ≡ some j → (meet far m t).best ≤ k + j)
      × (((meet far m t).best ≡ t.best)
          ⊎ ((j : ℕ) × (hop_at far m ≡ some j) × ((meet far m t).best ≡ k + j)))
unfolding meet
meet_facts far m k t e = elim (Option-cases (hop_at far m)) [
  | inl n ↦ rw (meet, n) (refl, refl, omega arith, λ j f. absurd (cc f), inl refl)
  | inr (i, n) ↦
      rw (meet, n, e)
        (
          refl,
          refl,
          omega arith,
          λ j f. let q : i ≡ j = cc f in omega arith,
          elim (min-cases t.best (k + i)) [ inl z ↦ inl z | inr z ↦ inr (i, refl, z) ],
        )
]

discover_facts :
    (dn m : ℕ) (s : Level)
    → m < length s.near
    → ((k : ℕ) × (hop_at (discover_hop dn m s).near m ≡ some k))
      × ((x k : ℕ) → hop_at s.near x ≡ some k → hop_at (discover_hop dn m s).near x ≡ some k)
      × ((x k : ℕ)
          → hop_at (discover_hop dn m s).near x ≡ some k
          → (hop_at s.near x ≡ some k) ⊎ ((hop_at s.near x ≡ none) × (x ≡ m) × (k ≡ suc dn)))
      × ((x : ℕ) → In x s.next → In x (discover_hop dn m s).next)
      × (hop_at s.near m ≡ none → In m (discover_hop dn m s).next)
      × ((x : ℕ)
          → In x (discover_hop dn m s).next
          → In x s.next ⊎ ((hop_at s.near x ≡ none) × (x ≡ m)))
      × (length (discover_hop dn m s).near ≡ length s.near)
      × ((discover_hop dn m s).best ≡ s.best)
unfolding discover_hop
discover_facts dn m s l = elim (Option-cases (hop_at s.near m)) [
  | inr (k, e) ↦
      rw (discover_hop, e)
        ((k, e), λ x j f. f, λ x j f. inl f, λ x h. h, λ n. absurd (cc n), λ x h. inl h, refl, refl)
  | inl n ↦
      rw (discover_hop, n)
        (
          (suc dn, hop_at-set s.near m (some (suc dn)) l),
          λ x j f. elim (Bool-cases (m == x)) [
            | inl q ↦ let r : m ≡ x = (==_iff m x).0 q in absurd (cc (n, f, r))
            | inr q ↦ hop_at-set_other s.near m x (some (suc dn)) (apart x q) ∙ f
          ],
          λ x j f. elim (Bool-cases (m == x)) [
            | inl q ↦
                let r : m ≡ x = (==_iff m x).0 q in
                let g = hop_at-set s.near m (some (suc dn)) l in
                inr (rw r at n, sym r, cc (f, g, r))
            | inr q ↦ inl (sym (hop_at-set_other s.near m x (some (suc dn)) (apart x q)) ∙ f)
          ],
          λ x h. In-append_left x s.next (m ∷ []) h,
          λ q. In-append_right m s.next (m ∷ []) first,
          λ x h. elim (In-append x s.next (m ∷ []) h) [
            | inl k ↦ inl k
            | inr k ↦ elim (In-front k) [ inl q ↦ inr (rw q n, q) | inr z ↦ elim z [ ] ]
          ],
          length-set s.near m (some (suc dn)),
          refl,
        )
]
  where
    apart : (x : ℕ) → (m == x) ≡ false → m ≢ x
    apart x q r = let k = (==_iff m x).1 r in cc (k, q)

touch-Scanned :
    (far : List (Option ℕ)) (dn m : ℕ) (s : Level)
    → m < length s.near
    → Scanned far (suc dn) (λ x. x ≡ m) s (meet far m (discover_hop dn m s))
touch-Scanned far dn m s l =
    let ((k, e), kept, origin, stay, new, from, size, same) = discover_facts dn m s l in
    let (n, x, down, meets, made) = meet_facts far m k (discover_hop dn m s) e in
    record {
      kept = λ y i f. rw n (kept y i f);
      seen = λ y q. (k, rw (n, q) e);
      origin = λ y i f. origin y i (rw n at f);
      next_kept = λ y h. rw x (stay y h);
      next_new = λ y h q. rw (x, q) (new (rw q at h));
      next_from = λ y h. from y (rw x at h);
      best_down = omega arith;
      best_meet = λ y i j q f g.
          let r : k ≡ i = cc (f, n, q, e) in let b = meets j (rw q at g) in omega arith;
      best_from = elim made [
        | inl b ↦ inl (b ∙ same)
        | inr (j, f, b) ↦ inr (m, k, j, rw n e, f, b)
      ];
      size = ap length n ∙ size;
    }

touches-Scanned :
    (far : List (Option ℕ)) (dn : ℕ) (ms : List ℕ) (s : Level)
    → ((m : ℕ) → In m ms → m < length s.near)
    → Scanned far (suc dn) (λ x. In x ms) s (touches far dn ms s)
unfolding touches
touches-Scanned far dn [] s h =
    Scanned-same far (suc dn) (λ x. ⊥) (λ x. In x []) s s (λ x. (λ p. absurd p, λ i. elim i [ ]))
      (Scanned-nothing far (suc dn) s)
touches-Scanned far dn (m ∷ ms) s h =
    let t = meet far m (discover_hop dn m s) in
    let a = touch-Scanned far dn m s (h m first) in
    let b = touches-Scanned far dn ms t (λ x i. rw (a.size) (h x (later i))) in
    Scanned-same far (suc dn) (λ x. (x ≡ m) ⊎ In x ms) (λ x. In x (m ∷ ms)) s (touches far dn ms t)
      (λ x. (λ i. elim i [ inl q ↦ rw q first | inr k ↦ later k ], λ i. In-front i))
      (Scanned-after far (suc dn) (λ x. x ≡ m) (λ x. In x ms) s t (touches far dn ms t) a b)

-- The neighbours of a frontier.
abbrev pub Around : Adj → List ℕ → ℕ → Type 0
Around adj f x = (n : ℕ) × In n f × In x (of adj n)

-- A frontier at one distance below maxhop is scanned as a whole.
level_over-Scanned :
    (adj : Adj) (far : List (Option ℕ)) (maxhop : ℤ) (a : ℕ) (f : List ℕ) (s : Level)
    → at_least a maxhop ≡ false
    → ((n : ℕ) → In n f → hop_at s.near n ≡ some a)
    → ((n m : ℕ) → In n f → In m (of adj n) → m < length s.near)
    → Scanned far (suc a) (Around adj f) s (level_over adj far maxhop f s)
unfolding level_over
level_over-Scanned adj far maxhop a [] s low h l =
    Scanned-same far (suc a) (λ x. ⊥) (Around adj []) s s
      (λ x. (λ p. absurd p, λ i. let (n, k, j) = i in elim k [ ])) (Scanned-nothing far (suc a) s)
level_over-Scanned adj far maxhop a (n ∷ ns) s low h l =
    let t = touches far a (of adj n) s in
    let b = touches-Scanned far a (of adj n) s (λ m i. l n m first i) in
    let c =
      level_over-Scanned adj far maxhop a ns t low (λ m i. b.kept m a (h m (later i)))
        (λ m k i j. rw (b.size) (l m k (later i) j)) in
    rw (hop_from, h n first, low)
      (Scanned-same far (suc a) (λ x. In x (of adj n) ⊎ Around adj ns x) (Around adj (n ∷ ns)) s
        (level_over adj far maxhop ns t)
        (λ x. (
          λ i. elim i [ inl q ↦ (n, first, q) | inr (m, k, j) ↦ (m, later k, j) ],
          λ i.
              let (m, k, j) = i in
              elim (In-front k) [ inl q ↦ inl (rw q at j) | inr z ↦ inr (m, z, j) ],
        ))
        (Scanned-after far (suc a) (λ x. In x (of adj n)) (Around adj ns) s t
          (level_over adj far maxhop ns t) b c))

pub level-Scanned :
    (adj : Adj) (f : List ℕ) (near far : List (Option ℕ)) (maxhop : ℤ) (a : ℕ)
    → at_least a maxhop ≡ false
    → ((n : ℕ) → In n f → hop_at near n ≡ some a)
    → ((n m : ℕ) → In n f → In m (of adj n) → m < length near)
    → Scanned far
        (suc a)
        (Around adj f)
        (record { near = near; next = []; best = i32_max })
        (level adj f near far maxhop)
unfolding level
level-Scanned adj f near far maxhop a low h l =
    level_over-Scanned adj far maxhop a f (record { near = near; next = []; best = i32_max }) low h
      l

-- Nodes that are maxhop away are left alone.
pub level_stops :
    (adj : Adj) (far : List (Option ℕ)) (maxhop : ℤ) (a : ℕ) (f : List ℕ) (s : Level)
    → at_least a maxhop ≡ true
    → ((n : ℕ) → In n f → hop_at s.near n ≡ some a)
    → level_over adj far maxhop f s ≡ s
unfolding level_over
level_stops adj far maxhop a [] s high h = refl
level_stops adj far maxhop a (n ∷ ns) s high h =
    rw (hop_from, h n first, high) (level_stops adj far maxhop a ns s high (λ m i. h m (later i)))
