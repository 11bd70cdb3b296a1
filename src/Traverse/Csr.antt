-- ===== src/Traverse/Csr.antt =====
-- The compiled topology of engine/src/storage/traverse.rs: `compile`, and the functions that keep one
-- graph in the backend. The time that og_csr_build reports is not modelled, and
-- neither is the refusal of a text that is no direction: a direction here has passed check_dir.
use ontological_db.Base.{
  ℕ, suc, ◌+◌, ◌*◌, Bool, true, ◌==◌, leb, if◌then◌else◌, List, [], ◌∷◌, ◌++◌, Option, none, some,
  length,
}
use ontological_db.Base.Outcome.{Result, ok, err}
use ontological_db.Traverse.Heap.{Direction, outgoing, incoming, both, Row, adj_where, flatten}
use ontological_db.Traverse.Compressed.{Adj, pack}

-- The opposite of a direction.
abbrev pub flip : Direction → Direction
flip outgoing = incoming
flip incoming = outgoing
flip both = both

-- A row that the scan keeps: its source, its direction and its segment.
pub record Picked : Type 0 where
  pub src : ℕ
  pub dir : ℕ
  pub seg : List ℕ

-- One scan for both directions; a row without a segment is left out.
unfoldable pub pick : List Row → Option (List ℕ) → List Picked
unfolding adj_where
pick [] etypes = []
pick (row ∷ rows) etypes =
    let rest = pick rows etypes in
    if adj_where both etypes row
    then elim row.nbr [
      | none ↦ rest
      | some seg ↦ record { src = row.src; dir = row.dir; seg = flatten seg } ∷ rest
    ]
    else rest

unfoldable pub all_ids : List Picked → List ℕ
all_ids [] = []
all_ids (row ∷ rows) = row.src ∷ (row.seg ++ all_ids rows)

-- `sort_unstable` and `dedup`, which drops what equals its neighbour.
unfoldable pub insert_id : ℕ → List ℕ → List ℕ
insert_id x [] = x ∷ []
insert_id x (y ∷ ys) = if leb x y then x ∷ y ∷ ys else y ∷ insert_id x ys

unfoldable pub sort_ids : List ℕ → List ℕ
unfolding insert_id
sort_ids [] = []
sort_ids (x ∷ xs) = insert_id x (sort_ids xs)

unfoldable pub dedup_ids : List ℕ → List ℕ
dedup_ids [] = []
dedup_ids (x ∷ []) = x ∷ []
dedup_ids (x ∷ y ∷ ys) = let rest = dedup_ids (y ∷ ys) in if x == y then rest else x ∷ rest

-- `binary_search` on ids in ascending order, none of which stands twice: the place of one of them.
unfoldable pub index_of : List ℕ → ℕ → Option ℕ
index_of [] id = none
index_of (x ∷ xs) id =
    let rest = index_of xs id in
    if x == id then some 0 else elim rest [ none ↦ none | some p ↦ some (suc p) ]

-- `place_of`: an id that is not there would panic; see `index_of-place_of`.
unfoldable pub place_of : List ℕ → ℕ → ℕ
unfolding index_of
place_of ids id = elim (index_of ids id) [ none ↦ 0 | some p ↦ p ]

-- `want == "b" || d == want`
abbrev pub is_wanted : Direction → ℕ → Bool
is_wanted both dir = true
is_wanted outgoing dir = dir == 111
is_wanted incoming dir = dir == 105

abbrev pub segment_edges : List ℕ → ℕ → List ℕ → List (ℕ × ℕ)
segment_edges ids s [] = []
segment_edges ids s (n ∷ ns) = (s, place_of ids n) ∷ segment_edges ids s ns

unfoldable pub edges_of : List ℕ → Direction → List Picked → List (ℕ × ℕ)
unfolding place_of
edges_of ids want [] = []
edges_of ids want (row ∷ rows) =
    let rest = edges_of ids want rows in
    if is_wanted want row.dir
    then segment_edges ids (place_of ids row.src) row.seg ++ rest
    else rest

-- The key, a text that og_csr_stats shows, is kept as what it is made from, with the types in order.
pub record Csr : Type 0 where
  pub key : Direction × Option (List ℕ)
  pub ids : List ℕ
  pub fwd : Adj
  pub rev : Adj

abbrev pub build_key : Option (List ℕ) → Direction → Direction × Option (List ℕ)
build_key none dir = (dir, none)
build_key (some types) dir = (dir, some (sort_ids types))

unfoldable pub ids_of : List Picked → List ℕ
unfolding all_ids sort_ids dedup_ids
ids_of rows = dedup_ids (sort_ids (all_ids rows))

unfoldable pub compile : List Row → Option (List ℕ) → Direction → Csr
unfolding pick ids_of edges_of pack
compile table etypes want =
    let rows = pick table etypes in
    let ids = ids_of rows in
    record {
      key = build_key etypes want;
      ids = ids;
      fwd = pack (length ids) (edges_of ids want rows);
      rev = pack (length ids) (edges_of ids (flip want) rows);
    }

abbrev pub adj_bytes : Adj → ℕ
adj_bytes adj = length adj.offs * 4 + length adj.nbrs * 4

abbrev pub csr_bytes : Csr → ℕ
csr_bytes g = length g.ids * 8 + (adj_bytes g.fwd + adj_bytes g.rev)

-- `CSR`: the graph that the backend holds. Building one gives its nodes, edges and bytes.
unfoldable pub og_csr_build :
    List Row → Option (List ℕ) → Direction → Option Csr → (ℕ × ℕ × ℕ) × Option Csr
unfolding compile
og_csr_build table etypes dir held =
    let g = compile table etypes dir in ((length g.ids, length g.fwd.nbrs, csr_bytes g), some g)

unfoldable pub og_csr_drop : Option Csr → Option Csr
og_csr_drop held = none

unfoldable pub og_csr_stats : Option Csr → Option (Direction × Option (List ℕ)) × ℕ × ℕ × ℕ
og_csr_stats none = (none, 0, 0, 0)
og_csr_stats (some g) = (some g.key, length g.ids, length g.fwd.nbrs, csr_bytes g)

pub data NoGraph : Type 0 where
  no_compiled_graph : NoGraph

unfoldable pub with_csr : {A : Type 0} → (Csr → A) → Option Csr → Result NoGraph A
with_csr f none = err no_compiled_graph
with_csr f (some g) = ok (f g)
