-- ===== src/Traverse/Hops.antt =====
-- `level` and `og_csr_hops` of engine/src/storage/traverse.rs. A distance is `none` for UNSEEN. The sum
-- of two distances is written without the wrap-around of `i32`, which 2^30 nodes on a path would reach.
use ontological_db.Base.{
  ℕ, zero, suc, ◌+◌, ◌*◌, min, Bool, true, false, ◌||◌, ◌==◌, leb, if◌then◌else◌, List, [], ◌∷◌,
  ◌++◌, Option, none, some, length, get_or, set, replicate,
}
use ontological_db.Base.Int.{ℤ, pos, negsuc}
use ontological_db.Base.Outcome.{Result}
use ontological_db.Traverse.Heap.{at_least, rounds}
use ontological_db.Traverse.Compressed.{Adj, of}
use ontological_db.Traverse.Csr.{Csr, index_of, NoGraph, with_csr}

abbrev pub hop_at : List (Option ℕ) → ℕ → Option ℕ
hop_at near i = get_or near i none

abbrev pub i32_max : ℕ
i32_max = 2147483647

pub record Level : Type 0 where
  pub near : List (Option ℕ)
  pub next : List ℕ
  pub best : ℕ

-- A neighbour that is not seen yet gets its distance.
unfoldable pub discover_hop : ℕ → ℕ → Level → Level
discover_hop dn m s = elim (hop_at s.near m) [
  | none ↦ record { near = set s.near m (some (suc dn)); next = s.next ++ m ∷ []; best = s.best }
  | some k ↦ s
]

-- A neighbour that the other side has seen is a meeting.
unfoldable pub meet : List (Option ℕ) → ℕ → Level → Level
meet far m s = elim (hop_at far m) [
  | none ↦ s
  | some j ↦ elim (hop_at s.near m) [
    | none ↦ s
    | some i ↦ record { near = s.near; next = s.next; best = min s.best (i + j) }
  ]
]

unfoldable pub touches : List (Option ℕ) → ℕ → List ℕ → Level → Level
unfolding discover_hop meet
touches far dn [] s = s
touches far dn (m ∷ ms) s = touches far dn ms (meet far m (discover_hop dn m s))

-- A frontier holds nodes that have a distance.
unfoldable pub hop_from : Adj → List (Option ℕ) → ℤ → ℕ → Level → Level
unfolding touches of
hop_from adj far maxhop n s = elim (hop_at s.near n) [
  | none ↦ s
  | some dn ↦ if at_least dn maxhop then s else touches far dn (of adj n) s
]

unfoldable pub level_over : Adj → List (Option ℕ) → ℤ → List ℕ → Level → Level
unfolding hop_from
level_over adj far maxhop [] s = s
level_over adj far maxhop (n ∷ ns) s = level_over adj far maxhop ns (hop_from adj far maxhop n s)

unfoldable pub level : Adj → List ℕ → List (Option ℕ) → List (Option ℕ) → ℤ → Level
unfolding level_over
level adj frontier near far maxhop =
    level_over adj far maxhop frontier (record { near = near; next = []; best = i32_max })

pub record Frontiers : Type 0 where
  pub fs : List ℕ
  pub fd : List ℕ
  pub ds : List (Option ℕ)
  pub dd : List (Option ℕ)

abbrev pub no_nodes : List ℕ → Bool
no_nodes [] = true
no_nodes (x ∷ xs) = false

-- The smaller frontier is expanded.
unfoldable pub expand : Csr → ℤ → Frontiers → Frontiers × ℕ
unfolding level
expand g maxhop q = elim (leb (length q.fs) (length q.fd)) [
  | true ↦
      let r = level g.fwd q.fs q.ds q.dd maxhop in
      (record { fs = r.next; fd = q.fd; ds = r.near; dd = q.dd }, r.best)
  | false ↦
      let r = level g.rev q.fd q.dd q.ds maxhop in
      (record { fs = q.fs; fd = r.next; ds = q.ds; dd = r.near }, r.best)
]

-- `best <= maxhop`
abbrev pub within_hops : ℕ → ℤ → Bool
within_hops best (pos m) = leb best m
within_hops best (negsuc m) = false

-- The rounds of `while`. A level adds to the distances of one side, up to maxhop, or empties a frontier.
unfoldable pub expand_all : Csr → ℤ → ℕ → Frontiers → Option ℕ
unfolding expand
expand_all g maxhop zero q = none
expand_all g maxhop (suc n) q = elim (no_nodes q.fs || no_nodes q.fd) [
  | true ↦ none
  | false ↦
      let (next, best) = expand g maxhop q in
      elim (within_hops best maxhop) [ true ↦ some best | false ↦ expand_all g maxhop n next ]
]

abbrev pub frontiers : ℕ → ℕ → ℕ → Frontiers
frontiers size s d = record {
  fs = s ∷ [];
  fd = d ∷ [];
  ds = set (replicate size none) s (some 0);
  dd = set (replicate size none) d (some 0);
}

unfoldable pub csr_hops : ℕ → ℕ → ℤ → Csr → Option ℕ
unfolding index_of expand_all
csr_hops src dst maxhop g = elim (index_of g.ids src) [
  | none ↦ none
  | some s ↦ elim (index_of g.ids dst) [
    | none ↦ none
    | some d ↦
        if s == d
        then some 0
        else expand_all g maxhop (2 * rounds maxhop + 1) (frontiers (length g.ids) s d)
  ]
]

unfoldable pub og_csr_hops : ℕ → ℕ → ℤ → Option Csr → Result NoGraph (Option ℕ)
unfolding csr_hops with_csr
og_csr_hops src dst maxhop held = with_csr (csr_hops src dst maxhop) held
