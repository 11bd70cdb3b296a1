-- ===== src/Traverse/Alternating.antt =====
-- The loop of og_csr_hops in engine/src/storage/traverse.rs, which expands one side or the other.
use ontological_db.Base.{
  ℕ, zero, suc, ◌+◌, ◌*◌, ◌≡◌, ◌≤◌, ◌<◌, refl, sym, subst, inl, inr, true, false, ◌||◌, or-true,
  Bool-cases, or-cases, leb, List, [], ◌∷◌, Option, none, some, length, arith,
}
use ontological_db.Base.Int.{ℤ}
use ontological_db.Traverse.Heap.{rounds}
use ontological_db.Traverse.Levels.{Walk}
use ontological_db.Traverse.Csr.{Csr}
use ontological_db.Traverse.Hops.{
  i32_max, level, Frontiers, no_nodes, expand, within_hops, expand_all,
}
use ontological_db.Traverse.Distances.{Walk-back, Along}
use ontological_db.Traverse.Meetings.{Turned, Apart, empty_front}
use ontological_db.Traverse.Shortest.{
  Hops, Hops-none, Hops-some, Side, blocked, met, apart_still, level-LevelStep,
}

no_nodes-nil : (xs : List ℕ) → no_nodes xs ≡ true → xs ≡ []
no_nodes-nil [] e = refl
no_nodes-nil (x ∷ xs) e = absurd (cc e)

expand_all-finished :
    (g : Csr) (maxhop : ℤ) (n : ℕ) (q : Frontiers)
    → (no_nodes q.fs || no_nodes q.fd) ≡ true
    → expand_all g maxhop n q ≡ none
unfolding expand_all
expand_all-finished g maxhop zero q e = refl
expand_all-finished g maxhop (suc n) q e = rw (expand_all, e) refl

module _ (g : Csr) (maxhop : ℤ) (q : Frontiers) where
  abbrev forwards : Frontiers
  forwards =
      let t = level g.fwd q.fs q.ds q.dd maxhop in
      record { fs = t.next; fd = q.fd; ds = t.near; dd = q.dd }

  abbrev backwards : Frontiers
  backwards =
      let t = level g.rev q.fd q.dd q.ds maxhop in
      record { fs = q.fs; fd = t.next; ds = q.ds; dd = t.near }

  expand-forwards :
      leb (length q.fs) (length q.fd) ≡ true
      → expand g maxhop q ≡ (forwards, (level g.fwd q.fs q.ds q.dd maxhop).best)
  unfolding expand
  expand-forwards e = rw (expand, e) refl

  expand-backwards :
      leb (length q.fs) (length q.fd) ≡ false
      → expand g maxhop q ≡ (backwards, (level g.rev q.fd q.dd q.ds maxhop).best)
  unfolding expand
  expand-backwards e = rw (expand, e) refl

module _ (g : Csr) (maxhop : ℤ) (n : ℕ) (q r : Frontiers) (best : ℕ)
    (e : (no_nodes q.fs || no_nodes q.fd) ≡ false) (u : expand g maxhop q ≡ (r, best)) where
  expand_all-met : within_hops best maxhop ≡ true → expand_all g maxhop (suc n) q ≡ some best
  unfolding expand_all
  expand_all-met w =
      rw (expand_all, e)
        (subst
          (λ (z : Frontiers × ℕ).
            elim (within_hops z.1 maxhop) as (λ x. Option ℕ) [
              | true ↦ some z.1
              | false ↦ expand_all g maxhop n z.0
            ]
            ≡ some best)
          (sym u) (rw w refl))

  expand_all-onwards :
      within_hops best maxhop ≡ false → expand_all g maxhop (suc n) q ≡ expand_all g maxhop n r
  unfolding expand_all
  expand_all-onwards w =
      rw (expand_all, e)
        (subst
          (λ (z : Frontiers × ℕ).
            elim (within_hops z.1 maxhop) as (λ x. Option ℕ) [
              | true ↦ some z.1
              | false ↦ expand_all g maxhop n z.0
            ]
            ≡ expand_all g maxhop n r)
          (sym u) (rw w refl))

module _ (g : Csr) (turned : Turned g.fwd g.rev) (size : ℕ)
    (inside_fwd : (p q : ℕ) → Along g.fwd p q → q < size)
    (inside_rev : (p q : ℕ) → Along g.rev p q → q < size) (s d : ℕ) (maxhop : ℤ)
    (small : rounds maxhop < i32_max) where
  Turned-back : Turned g.rev g.fwd
  Turned-back m n = ((turned n m).1, (turned n m).0)

  forth : (l : ℕ) → Walk (Along g.rev) d s l → Walk (Along g.fwd) s d l
  forth = Walk-back (Along g.rev) (Along g.fwd) (λ p q. (Turned-back p q).0) d s

  back : (l : ℕ) → Walk (Along g.fwd) s d l → Walk (Along g.rev) d s l
  back = Walk-back (Along g.fwd) (Along g.rev) (λ p q. (turned p q).0) s d

  Apart-back : (a b : ℕ) → Apart g.fwd s d (rounds maxhop) a b → Apart g.rev d s (rounds maxhop) b a
  Apart-back a b h l w u = let z = h l (forth l w) u in omega arith

  Apart-forth :
      (a b : ℕ) → Apart g.rev d s (rounds maxhop) b a → Apart g.fwd s d (rounds maxhop) a b
  Apart-forth a b h l w u = let z = h l (back l w) u in omega arith

  -- The rounds suffice, and what the loop returns is the length of a shortest walk.
  pub expand_all-Hops :
      (n a b : ℕ) (q : Frontiers)
      → Side g.fwd size s a q.fs q.ds
      → Side g.rev size d b q.fd q.dd
      → Apart g.fwd s d (rounds maxhop) a b
      → a ≤ rounds maxhop
      → b ≤ rounds maxhop
      → 2 * rounds maxhop < n + (a + b)
      → Hops g.fwd s d (rounds maxhop) (expand_all g maxhop n q)
  unfolding expand_all
  expand_all-Hops zero a b q i o h la lb fuel = absurd (omega arith)
  expand_all-Hops (suc n) a b q i o h la lb fuel =
      elim (Bool-cases (no_nodes q.fs || no_nodes q.fd)) [
        | inl e ↦ rw (expand_all, e) (Hops-none g.fwd s d (rounds maxhop) (over e))
        | inr e ↦ elim (Bool-cases (leb (length q.fs) (length q.fd))) [
          | inl c ↦
              let r = forwards g maxhop q in
              let best = (level g.fwd q.fs q.ds q.dd maxhop).best in
              let u = expand-forwards g maxhop q c in
              elim (level-LevelStep g.fwd g.rev turned size inside_fwd s d a b q.fs q.fd q.ds q.dd
                maxhop small i o h) [
                  | blocked nx w z ↦
                      rw
                        (
                          expand_all-onwards g maxhop n q r best e u w,
                          expand_all-finished g maxhop n r (rw nx refl),
                        )
                        (Hops-none g.fwd s d (rounds maxhop) z)
                  | met w v l least ↦
                      rw (expand_all-met g maxhop n q r best e u w)
                        (Hops-some g.fwd s d (rounds maxhop) _ v l least)
                  | apart_still w low j k ↦
                      rw (expand_all-onwards g maxhop n q r best e u w)
                        (expand_all-Hops n (suc a) b r j o k (omega arith) lb (omega arith))
                ]
          | inr c ↦
              let r = backwards g maxhop q in
              let best = (level g.rev q.fd q.dd q.ds maxhop).best in
              let u = expand-backwards g maxhop q c in
              elim (level-LevelStep g.rev g.fwd Turned-back size inside_rev d s b a q.fd q.fs q.dd
                q.ds maxhop small o i (Apart-back a b h)) [
                  | blocked nx w z ↦
                      rw
                        (
                          expand_all-onwards g maxhop n q r best e u w,
                          expand_all-finished g maxhop n r (rw nx (or-true (no_nodes q.fs))),
                        )
                        (Hops-none g.fwd s d (rounds maxhop) (λ l v. z l (back l v)))
                  | met w v l least ↦ rw (expand_all-met g maxhop n q r best e u w) (
                      Hops-some g.fwd s d (rounds maxhop) _ (forth _ v) l
                        (λ k x. least k (back k x)))
                  | apart_still w low j k ↦ rw (expand_all-onwards g maxhop n q r best e u w) (
                      expand_all-Hops n a (suc b) r i j (Apart-forth a (suc b) k) la (omega arith)
                        (omega arith))
                ]
        ]
      ]
    where
      over :
          (no_nodes q.fs || no_nodes q.fd) ≡ true
          → (l : ℕ) → Walk (Along g.fwd) s d l
          → rounds maxhop < l
      over e l w = elim (or-cases (no_nodes q.fs) (no_nodes q.fd) e) [
        | inl p ↦
            empty_front g.fwd g.rev turned s d (rounds maxhop) a b q.fs q.ds q.dd i.known i.front
              o.known h (no_nodes-nil q.fs p) l w
        | inr p ↦
            empty_front g.rev g.fwd Turned-back d s (rounds maxhop) b a q.fd q.dd q.ds o.known
              o.front i.known (Apart-back a b h) (no_nodes-nil q.fd p) l (back l w)
      ]
