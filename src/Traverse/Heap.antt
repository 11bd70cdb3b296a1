-- ===== src/Traverse/Heap.antt =====
-- `og_reach` of engine/src/storage/traverse.rs, over the rows of og_data.og_adj. A node is the number
-- of its id, which make_id never makes negative. That PostgreSQL refuses the statement is not modelled.
use ontological_db.Base.{
  ℕ, zero, suc, Bool, true, not, ◌&&◌, ◌||◌, ◌==◌, leb, if◌then◌else◌, List, [], ◌∷◌, ◌++◌, Option,
  none, some,
}
use ontological_db.Base.Int.{ℤ, pos, negsuc}
use ontological_db.Base.Members.{member}
use ontological_db.Base.Outcome.{Result, ok, err}

-- The letters `o`, `i` and `b`, once they have been checked.
pub data Direction : Type 0 where
  outgoing incoming both : Direction

pub data DirectionError : Type 0 where
  bad_direction : ℕ → DirectionError

unfoldable pub direction_of : ℕ → Result DirectionError Direction
direction_of dir =
    if dir == 111
    then ok outgoing
    else if dir == 105
    then ok incoming
    else if dir == 98
    then ok both
    else err (bad_direction dir)

-- A row of og_data.og_adj: one segment of a node's neighbours.
pub record Row : Type 0 where
  pub src : ℕ
  pub etype : ℕ
  pub dir : ℕ
  pub nbr : Option (List (Option ℕ))

abbrev pub in_direction : Direction → ℕ → Bool
in_direction both dir = dir == 111 || dir == 105
in_direction outgoing dir = dir == 111
in_direction incoming dir = dir == 105

abbrev pub of_types : Option (List ℕ) → ℕ → Bool
of_types none etype = true
of_types (some types) etype = member etype types

-- The predicate that the text of `adj_where` says.
unfoldable pub adj_where : Direction → Option (List ℕ) → Row → Bool
adj_where dir etypes row = in_direction dir row.dir && of_types etypes row.etype

-- `.flatten()` on a segment: what is NULL is left out.
abbrev pub flatten : List (Option ℕ) → List ℕ
flatten [] = []
flatten (none ∷ seg) = flatten seg
flatten (some n ∷ seg) = n ∷ flatten seg

abbrev pub segment : Option (List (Option ℕ)) → List ℕ
segment none = []
segment (some seg) = flatten seg

-- The neighbours that the query brings for a frontier, row by row.
unfoldable pub scan : List Row → Direction → Option (List ℕ) → List ℕ → List ℕ
unfolding adj_where
scan [] dir etypes frontier = []
scan (row ∷ rows) dir etypes frontier =
    let rest = scan rows dir etypes frontier in
    if member row.src frontier && adj_where dir etypes row then segment row.nbr ++ rest else rest

-- `depth >= minhop`
abbrev pub at_least : ℕ → ℤ → Bool
at_least depth (pos m) = leb m depth
at_least depth (negsuc m) = true

-- How many rounds `1..=maxhop` has.
abbrev pub rounds : ℤ → ℕ
rounds (pos m) = m
rounds (negsuc m) = zero

pub record Search : Type 0 where
  pub visited : List ℕ
  pub next : List ℕ
  pub out : List (ℕ × ℕ)
  pub start_done : Bool

module _ (src : ℕ) (minhop : ℤ) where
  -- `visited.insert(nbr)` was true.
  abbrev pub discover : ℕ → ℕ → Search → Search
  discover depth nbr s = record {
    visited = nbr ∷ s.visited;
    next = s.next ++ nbr ∷ [];
    out = if at_least depth minhop then s.out ++ (nbr, depth) ∷ [] else s.out;
    start_done = s.start_done;
  }

  abbrev pub returns : ℕ → ℕ → Search → Bool
  returns depth nbr s = nbr == src && not s.start_done && at_least depth minhop

  -- The start node is reported when a cycle comes back to it.
  abbrev pub revisit : ℕ → ℕ → Search → Search
  revisit depth nbr s = record {
    visited = s.visited;
    next = s.next;
    out = if returns depth nbr s then s.out ++ (src, depth) ∷ [] else s.out;
    start_done = if returns depth nbr s then true else s.start_done;
  }

  unfoldable pub step : ℕ → ℕ → Search → Search
  step depth nbr s = if member nbr s.visited then revisit depth nbr s else discover depth nbr s

  unfoldable pub steps : ℕ → List ℕ → Search → Search
  unfolding step
  steps depth [] s = s
  steps depth (nbr ∷ nbrs) s = steps depth nbrs (step depth nbr s)

  -- The loop over the depths, `n` rounds of it at most.
  unfoldable pub levels : (List ℕ → List ℕ) → ℕ → ℕ → List ℕ → Search → List (ℕ × ℕ)
  unfolding steps
  levels nbrs zero depth frontier s = s.out
  levels nbrs (suc n) depth [] s = s.out
  levels nbrs (suc n) depth (f ∷ fs) s =
      let s' = steps depth (nbrs (f ∷ fs)) (record s { next = [] }) in
      levels nbrs n (suc depth) s'.next s'

  abbrev pub start : Search
  start = record {
    visited = src ∷ [];
    next = [];
    out = if at_least 0 minhop then (src, 0) ∷ [] else [];
    start_done = at_least 0 minhop;
  }

unfoldable pub og_reach :
    List Row → ℕ → Option (List ℕ) → ℕ → ℤ → ℤ → Result DirectionError (List (ℕ × ℕ))
unfolding direction_of scan levels
og_reach table src etypes dir minhop maxhop = elim (direction_of dir) [
  | err e ↦ err e
  | ok d ↦
      ok (levels src minhop (scan table d etypes) (rounds maxhop) 1 (src ∷ []) (start src minhop))
]
