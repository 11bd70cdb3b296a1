-- ===== src/Traverse/Shortest.antt =====
-- The bidirectional search of og_csr_hops in engine/src/storage/traverse.rs, over positions.
use ontological_db.Base.{
  ℕ, zero, suc, ◌≡◌, ◌≤◌, ◌<◌, refl, sym, ◌∙◌, subst, inl, inr, true, false, Bool-cases, leb→le,
  List, [], ◌∷◌, Option, none, some, length, arith,
}
use ontological_db.Base.Int.{ℤ, pos, negsuc}
use ontological_db.Traverse.Heap.{at_least, rounds}
use ontological_db.Traverse.Levels.{Walk}
use ontological_db.Traverse.Compressed.{Adj}
use ontological_db.Traverse.Hops.{hop_at, Level, i32_max, level, within_hops}
use ontological_db.Traverse.Touching.{level-Scanned, level_stops}
use ontological_db.Traverse.Distances.{Along, Near, Front, Near-level, Front-level}
use ontological_db.Traverse.Meetings.{Turned, Apart, at_bound, meeting_shortest, no_meeting}

hop_at-lt : (near : List (Option ℕ)) (x k : ℕ) → hop_at near x ≡ some k → x < length near
hop_at-lt [] x k e = absurd (cc e)
hop_at-lt (v ∷ near) zero k e = omega arith
hop_at-lt (v ∷ near) (suc x) k e = let l = hop_at-lt near x k e in omega arith

at_least-rounds : (a : ℕ) (maxhop : ℤ) → at_least a maxhop ≡ true → rounds maxhop ≤ a
at_least-rounds a (pos m) e = leb→le m a e
at_least-rounds a (negsuc m) e = omega arith

below-rounds :
    (a best : ℕ) (maxhop : ℤ)
    → at_least a maxhop ≡ false
    → (a < rounds maxhop) × (within_hops best maxhop ≡ false → rounds maxhop < best)
below-rounds a best (pos m) e = ground arith
below-rounds a best (negsuc m) e = absurd (cc e)

within_hops-rounds : (best : ℕ) (maxhop : ℤ) → within_hops best maxhop ≡ true → best ≤ rounds maxhop
within_hops-rounds best (pos m) e = leb→le best m e
within_hops-rounds best (negsuc m) e = absurd (cc e)

not-within_hops : (best : ℕ) (maxhop : ℤ) → rounds maxhop < best → within_hops best maxhop ≡ false
not-within_hops best (pos m) e = ground arith
not-within_hops best (negsuc m) e = refl

-- What is answered is the length of a shortest walk, and nothing if none is within the bound.
pub record Hops (adj : Adj) (s d h : ℕ) (answer : Option ℕ) : Type 0 where
  pub shortest :
      (k : ℕ)
      → answer ≡ some k
      → Walk (Along adj) s d k × (k ≤ h) × ((l : ℕ) → Walk (Along adj) s d l → k ≤ l)
  pub nothing : answer ≡ none → (l : ℕ) → Walk (Along adj) s d l → h < l

pub Hops-none :
    (adj : Adj) (s d h : ℕ) → ((l : ℕ) → Walk (Along adj) s d l → h < l) → Hops adj s d h none
Hops-none adj s d h f = record { shortest = λ k e. absurd (cc e); nothing = λ e. f }

pub Hops-some :
    (adj : Adj) (s d h k : ℕ)
    → Walk (Along adj) s d k
    → k ≤ h
    → ((l : ℕ) → Walk (Along adj) s d l → k ≤ l)
    → Hops adj s d h (some k)
Hops-some adj s d h k w l f = record {
  shortest = λ j e.
      let q : k ≡ j = cc e in
      (subst (λ i. Walk (Along adj) s d i) q w, omega arith, λ i v. let b = f i v in omega arith);
  nothing = λ e. absurd (cc e);
}

-- One side of the search.
pub record Side (adj : Adj) (size s a : ℕ) (f : List ℕ) (near : List (Option ℕ)) : Type 0 where
  pub known : Near (Along adj) s a near
  pub front : Front a near f
  pub sized : length near ≡ size

module _ (adj back : Adj) (turned : Turned adj back) (size : ℕ)
    (inside : (p q : ℕ) → Along adj p q → q < size) (s d a b : ℕ) (f g : List ℕ)
    (near far : List (Option ℕ)) (maxhop : ℤ) (small : rounds maxhop < i32_max)
    (i : Side adj size s a f near) (o : Side back size d b g far)
    (apart : Apart adj s d (rounds maxhop) a b) where
  -- What a level does to its side.
  pub data LevelStep (t : Level) : Type 0 where
    blocked :
        t.next ≡ []
        → within_hops t.best maxhop ≡ false
        → ((l : ℕ) → Walk (Along adj) s d l → rounds maxhop < l)
        → LevelStep t
    met :
        within_hops t.best maxhop ≡ true
        → Walk (Along adj) s d t.best
        → t.best ≤ rounds maxhop
        → ((l : ℕ) → Walk (Along adj) s d l → t.best ≤ l)
        → LevelStep t
    apart_still :
        within_hops t.best maxhop ≡ false
        → a < rounds maxhop
        → Side adj size s (suc a) t.next t.near
        → Apart adj s d (rounds maxhop) (suc a) b
        → LevelStep t

  pub level-LevelStep : LevelStep (level adj f near far maxhop)
  unfolding level
  level-LevelStep = elim (Bool-cases (at_least a maxhop)) [
    | inl e ↦
        let stop =
          level_stops adj far maxhop a f (record { near = near; next = []; best = i32_max }) e
            (i.front.at_radius) in
        subst (λ t. LevelStep t) (sym stop)
          (blocked refl (not-within_hops i32_max maxhop small) (
            at_bound adj back turned s d (rounds maxhop) a b f near far i.known i.front o.known
              apart (at_least-rounds a maxhop e)))
    | inr e ↦
        let t = level adj f near far maxhop in
        let c =
          level-Scanned adj f near far maxhop a e i.front.at_radius
            (λ n m h k. rw i.sized (inside n m k)) in
        let (low, wide) = below-rounds a t.best maxhop e in
        elim (Bool-cases (within_hops t.best maxhop)) [
          | inl q ↦
              let l = within_hops-rounds t.best maxhop q in
              let (w, least) =
                meeting_shortest adj back turned s d (rounds maxhop) a b f near far i.known i.front
                  o.known apart t c l small in
              met q w l least
          | inr q ↦
              apart_still q low
                (record {
                  known = Near-level adj s a f near far t i.known i.front c;
                  front = Front-level adj s a f near far t i.known i.front c;
                  sized = c.size ∙ i.sized;
                })
                (no_meeting adj back turned s d (rounds maxhop) a b f near far i.known i.front
                  o.known apart t c (wide q))
        ]
  ]
