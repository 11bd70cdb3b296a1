-- ===== src/Traverse/HopCounts.antt =====
-- `og_csr_hops` of engine/src/storage/traverse.rs against the walks along the rows of og_data.og_adj.
use ontological_db.Base.{
  ℕ, zero, suc, ◌+◌, ◌*◌, ◌≡◌, ◌≢◌, ◌≤◌, ◌<◌, ◌↔◌, refl, sym, ap, ◌∙◌, subst, inl, inr, Bool-cases,
  Option-cases, ◌==◌, ==_iff, List, [], ◌∷◌, Option, none, some, length, length-replicate, get_or,
  set, replicate, arith,
}
use ontological_db.Base.Int.{ℤ}
use ontological_db.Base.Outcome.{ok}
use ontological_db.Base.Members.{In, first}
use ontological_db.Traverse.Heap.{Direction, Row, rounds}
use ontological_db.Traverse.Steps.{In-single}
use ontological_db.Traverse.Levels.{Walk, here, further}
use ontological_db.Traverse.Answers.{Linked}
use ontological_db.Traverse.Csr.{
  Csr, Picked, pick, ids_of, index_of, compile, og_csr_build, flip, with_csr,
}
use ontological_db.Traverse.Compressed.{Adj}
use ontological_db.Traverse.Positions.{index_of_at, index_of-place_of, Arc, Arc-In}
use ontological_db.Traverse.Picks.{Linked-Arc}
use ontological_db.Traverse.CsrAnswers.{Walk-map, Hop-Walk, Walk-Hop, fwd}
use ontological_db.Traverse.Refines.{first_edge}
use ontological_db.Traverse.Hops.{hop_at, i32_max, expand_all, frontiers, csr_hops, og_csr_hops}
use ontological_db.Traverse.Scanned.{length-set, hop_at-set, hop_at-set_other}
use ontological_db.Traverse.Distances.{Along}
use ontological_db.Traverse.Meetings.{Apart}
use ontological_db.Traverse.Shortest.{Side}
use ontological_db.Traverse.Alternating.{expand_all-Hops}
use ontological_db.Traverse.Turning.{Along-inside, fwd-Turned}

hop_at-replicate : (n x : ℕ) → hop_at (replicate n none) x ≡ none
hop_at-replicate zero x = refl
hop_at-replicate (suc n) zero = refl
hop_at-replicate (suc n) (suc x) = hop_at-replicate n x

Walk_zero : {E : ℕ → ℕ → Type 0} (s x k : ℕ) → k ≡ 0 → Walk E s x k → x ≡ s
Walk_zero s x zero e here = refl
Walk_zero s x (suc k) e w = absurd (omega arith)

-- The distances before the first level: the node itself.
module _ (adj : Adj) (size s : ℕ) (l : s < size) where
  abbrev alone : List (Option ℕ)
  alone = set (replicate size none) s (some 0)

  alone_at : hop_at alone s ≡ some 0
  alone_at =
      hop_at-set (replicate size none) s (some 0)
        (let n = length-replicate {A = Option ℕ} size none in omega arith)

  only : (x k : ℕ) → hop_at alone x ≡ some k → (x ≡ s) × (k ≡ 0)
  only x k e = elim (Bool-cases (s == x)) [
    | inl q ↦
        let r : s ≡ x = (==_iff s x).0 q in
        let z : hop_at alone x ≡ some 0 = subst (λ y. hop_at alone y ≡ some 0) r alone_at in
        (sym r, cc (e, z))
    | inr q ↦
        let ne : s ≢ x = (λ r. let k = (==_iff s x).1 r in cc (k, q)) in
        let z = hop_at-set_other (replicate size none) s x (some 0) ne in
        let y = hop_at-replicate size x in absurd (cc (e, z, y))
  ]

  start-Side : Side adj size s 0 (s ∷ []) alone
  start-Side = record {
    known = record {
      walked = λ x k e. let (p, q) = only x k e in (rw (p, q) here, omega arith);
      reached =
          λ x j w h. let p = Walk_zero s x j (omega arith) w in (0, omega arith, rw p alone_at);
    };
    front = record {
      at_radius = λ x h. rw (In-single h) alone_at;
      listed = λ x e. rw ((only x 0 e).0) first;
    };
    sized = length-set (replicate size none) s (some 0) ∙ length-replicate size none;
  }

start-Apart : (adj : Adj) (s d h : ℕ) → s ≢ d → Apart adj s d h 0 0
start-Apart adj s d h ne zero w u = absurd (ne (sym (Walk_zero s d 0 refl w)))
start-Apart adj s d h ne (suc l) w u = omega arith

last_edge : {E : ℕ → ℕ → Type 0} (s x k : ℕ) → Walk E s x (suc k) → (y : ℕ) × E y x
last_edge s x k (further {m = m} w e) = (m, e)

-- The length of a shortest walk along `E`, if one has at most `h` edges.
pub record Shortest (E : ℕ → ℕ → Type 0) (src dst h : ℕ) (answer : Option ℕ) : Type 0 where
  pub least :
      (k : ℕ) → answer ≡ some k → Walk E src dst k × (k ≤ h) × ((l : ℕ) → Walk E src dst l → k ≤ l)
  pub nothing : answer ≡ none → (l : ℕ) → Walk E src dst l → h < l

module _ (table : List Row) (etypes : Option (List ℕ)) (dir : Direction)
    (mirrored : (x y : ℕ) → Linked table dir etypes x y ↔ Linked table (flip dir) etypes y x)
    (src dst : ℕ) (maxhop : ℤ) (small : rounds maxhop < i32_max)
    (present : src ≡ dst → In src (ids_of (pick table etypes))) where
  abbrev E : ℕ → ℕ → Type 0
  E = Linked table dir etypes

  abbrev rows : List Picked
  rows = pick table etypes

  abbrev g : Csr
  g = compile table etypes dir

  abbrev h : ℕ
  h = rounds maxhop

  arcs : (m n : ℕ) → Arc rows dir m n ↔ Arc rows (flip dir) n m
  arcs m n =
      let (a, b) = Linked-Arc table etypes dir m n in
      let (c, d) = Linked-Arc table etypes (flip dir) n m in
      let (e, f) = mirrored m n in (λ x. d (e (a x)), λ x. b (f (c x)))

  absent : (id : ℕ) → index_of (ids_of rows) id ≡ none → In id (ids_of rows) → ⊥
  absent id n i = let k = index_of-place_of (ids_of rows) id i in cc (k, n)

  -- Without a place there is no walk.
  unreached : ((l : ℕ) → Walk E src dst l → ⊥) → Shortest E src dst h none
  unreached f = record { least = λ k e. absurd (cc e); nothing = λ e l w. absurd (f l w) }

  src_absent : index_of (ids_of rows) src ≡ none → (l : ℕ) → Walk E src dst l → ⊥
  src_absent n zero w = absent src n (present (sym (Walk_zero src dst 0 refl w)))
  src_absent n (suc l) w =
      let (y, e) = first_edge dst l w in
      absent src n (Arc-In rows dir src y ((Linked-Arc table etypes dir src y).1 e)).0

  dst_absent : index_of (ids_of rows) dst ≡ none → (l : ℕ) → Walk E src dst l → ⊥
  dst_absent n zero w = let e = Walk_zero src dst 0 refl w in absent dst n (rw e (present (sym e)))
  dst_absent n (suc l) w =
      let (y, e) = last_edge src dst l w in
      absent dst n (Arc-In rows dir y dst ((Linked-Arc table etypes dir y dst).1 e)).1

  module _ (s d : ℕ) (at_s : index_of (ids_of rows) src ≡ some s)
      (at_d : index_of (ids_of rows) dst ≡ some d) where
    to_rows : (k : ℕ) → Walk (Along (fwd rows dir)) s d k → Walk E src dst k
    to_rows k w =
        let (x, a, v) = Hop-Walk rows dir src s at_s d k w in
        let same : x ≡ dst =
          sym (index_of_at (ids_of rows) x d a).1 ∙ (index_of_at (ids_of rows) dst d at_d).1 in
        subst (λ y. Walk E src y k) same
          (Walk-map (λ m n e. (Linked-Arc table etypes dir m n).0 e) v)

    to_positions : (k : ℕ) → Walk E src dst k → Walk (Along (fwd rows dir)) s d k
    to_positions k w =
        let (p, a, v) =
          Walk-Hop rows dir src s at_s dst k
            (Walk-map (λ m n e. (Linked-Arc table etypes dir m n).1 e) w) in
        let same : p ≡ d = cc (a, at_d) in subst (λ q. Walk (Along (fwd rows dir)) s q k) same v

    searched :
        s ≢ d
        → Shortest E src dst h
            (expand_all g maxhop (2 * h + 1) (frontiers (length (ids_of rows)) s d))
    unfolding compile
    searched ne =
        let size = length (ids_of rows) in
        let r =
          expand_all-Hops g (fwd-Turned rows dir arcs) size (Along-inside rows dir)
            (Along-inside rows (flip dir)) s d maxhop small (2 * h + 1) 0 0 (frontiers size s d)
            (start-Side g.fwd size s (index_of_at (ids_of rows) src s at_s).0)
            (start-Side g.rev size d (index_of_at (ids_of rows) dst d at_d).0)
            (start-Apart g.fwd s d h ne) (omega arith) (omega arith) (omega arith) in
        record {
          least = λ k e.
              let (w, b, f) = r.shortest k e in (to_rows k w, b, λ l v. f l (to_positions l v));
          nothing = λ e l w. r.nothing e l (to_positions l w);
        }

  one_place :
      (s d : ℕ)
      → index_of (ids_of rows) src ≡ some s
      → index_of (ids_of rows) dst ≡ some d
      → s ≡ d
      → src ≡ dst
  one_place s d n m e =
      sym (index_of_at (ids_of rows) src s n).1
      ∙ ap (λ p. get_or (ids_of rows) p 0) e
      ∙ (index_of_at (ids_of rows) dst d m).1

  itself : src ≡ dst → Shortest E src dst h (some 0)
  itself e = record {
    least = λ k q. let z : 0 ≡ k = cc q in (rw (← z, ← e) here, omega arith, λ l w. omega arith);
    nothing = λ q. absurd (cc q);
  }

  csr_hops-Shortest : Shortest E src dst h (csr_hops src dst maxhop g)
  unfolding csr_hops compile
  csr_hops-Shortest = elim (Option-cases (index_of (ids_of rows) src)) [
    | inl n ↦ rw (csr_hops, n) (unreached (src_absent n))
    | inr (s, n) ↦ elim (Option-cases (index_of (ids_of rows) dst)) [
      | inl m ↦ rw (csr_hops, n, m) (unreached (dst_absent m))
      | inr (d, m) ↦ elim (Bool-cases (s == d)) [
        | inl e ↦ rw (csr_hops, n, m, e) (itself (one_place s d n m ((==_iff s d).0 e)))
        | inr e ↦
            rw (csr_hops, n, m, e) (searched s d n m (λ q. let k = (==_iff s d).1 q in cc (k, e)))
      ]
    ]
  ]

-- The length of a shortest walk, within a bound.
abbrev pub LeastWalk : (ℕ → ℕ → Type 0) → ℕ → ℕ → ℕ → ℕ → Type 0
LeastWalk E src dst h k = Walk E src dst k × (k ≤ h) × ((l : ℕ) → Walk E src dst l → k ≤ l)

Shortest-LeastWalk :
    (E : ℕ → ℕ → Type 0) (src dst h : ℕ) (answer : Option ℕ)
    → Shortest E src dst h answer
    → ((k : ℕ) → (answer ≡ some k) ↔ LeastWalk E src dst h k)
      × ((answer ≡ none) ↔ ((l : ℕ) → Walk E src dst l → h < l))
Shortest-LeastWalk E src dst h none r = (
  λ k. (
    λ e. r.least k e,
    λ w. let (v, b, f) = w in absurd (let z = r.nothing refl k v in omega arith),
  ),
  (λ e. r.nothing e, λ f. refl),
)
Shortest-LeastWalk E src dst h (some j) r =
    let (v, b, f) = r.least j refl in
    (
      λ k. (
        λ e. r.least k e,
        λ w. let (u, c, d) = w in let x = f k u in let y = d j v in ap some (omega arith),
      ),
      (λ e. absurd (cc e), λ d. absurd (let z = d j v in omega arith)),
    )

-- On a table that holds every edge in both directions, and with maxhop below i32::MAX, og_csr_hops on
-- the graph that og_csr_build has just compiled answers with the length of a shortest walk from one
-- node to the other if it has at most maxhop edges, and with nothing if there is no walk of at most
-- maxhop edges; a node that is asked for itself must have an edge. A negative maxhop counts as 0.
pub og_csr_hops_iff :
    (table : List Row) (etypes : Option (List ℕ)) (dir : Direction) (src dst : ℕ) (maxhop : ℤ)
    (held : Option Csr)
    → ((x y : ℕ) → Linked table dir etypes x y ↔ Linked table (flip dir) etypes y x)
    → rounds maxhop < i32_max
    → (src ≡ dst → In src (ids_of (pick table etypes)))
    → (answer : Option ℕ) × (og_csr_hops src dst maxhop (og_csr_build table etypes dir held).1
        ≡ ok answer)
      × ((k : ℕ)
          → (answer ≡ some k) ↔ LeastWalk (Linked table dir etypes) src dst (rounds maxhop) k)
      × ((answer ≡ none) ↔ ((l : ℕ) → Walk (Linked table dir etypes) src dst l → rounds maxhop < l))
unfolding og_csr_hops og_csr_build with_csr
og_csr_hops_iff table etypes dir src dst maxhop held mirrored small present =
    let answer = csr_hops src dst maxhop (compile table etypes dir) in
    let (f, g) =
      Shortest-LeastWalk (Linked table dir etypes) src dst (rounds maxhop) answer
        (csr_hops-Shortest table etypes dir mirrored src dst maxhop small present) in
    (answer, refl, f, g)
