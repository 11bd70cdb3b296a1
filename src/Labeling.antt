-- ===== src/Labeling.antt =====
-- engine/src/catalog/labeling.rs: interval labels of the type hierarchy.
-- A type id is a number. The hash maps are association lists, and the rows that SPI reads and writes
-- are arguments and results. The cursor is an `i64` that starts at 1 and grows by 2048 for each row,
-- so it is a number here: 2^52 rows would be needed to overflow it.
mod Paths
mod Segments
pub mod Search
mod Reachable
mod Walks
mod Queries
pub mod Errors
pub mod Listing
pub mod Loading
pub mod Subtypes
mod Checks
use ontological_db.Base.{
  ℕ, zero, suc, ◌+◌, ◌*◌, Bool, true, false, ◌&&◌, ltb, leb, ◌==◌, if◌then◌else◌,
}
use ontological_db.Base.{List, [], ◌∷◌, ◌++◌, length, Option, none, some, map, ◌||◌}
use mathlib.Core.List.{reverse}
use ontological_db.Base.Outcome.{Result, ok, err, ◌>>=◌}

abbrev pub gap : ℕ
gap = 1024

-- A node of the inheritance graph; its id is the key under which it stands.
pub record TypeNode : Type 0 where
  pub children : List ℕ
  pub parents : List ℕ

abbrev pub Dag : Type 0
Dag = List (ℕ × TypeNode)

-- A row of og_catalog.type_label, for one graph.
pub record Label : Type 0 where
  pub type_id : ℕ
  pub path_id : ℕ
  pub lft : ℕ
  pub rgt : ℕ
  pub depth : ℕ

-- `error!` on a cycle, the panic of `dag[&id]` on a missing id, and the guard of the reachability
-- walk. `out_of_fuel` is no outcome of the source.
pub data LabelError : Type 0 where
  cycle_at : ℕ → LabelError
  missing : ℕ → LabelError
  cycle_in_walk : LabelError
  orphans : LabelError
  out_of_fuel : LabelError

pub find : Dag → ℕ → Option TypeNode
find [] id = none
find ((k, node) ∷ dag) id = if k == id then some node else find dag id

-- `dag.insert(id, TypeNode { … })` for a row of og_catalog.type, whose ids are distinct
abbrev pub new_node : ℕ → ℕ × TypeNode
new_node id = (id, record { children = []; parents = [] })

abbrev pub push_child : ℕ → TypeNode → TypeNode
push_child child n = record n { children = n.children ++ child ∷ [] }

abbrev pub push_parent : ℕ → TypeNode → TypeNode
push_parent parent n = record n { parents = n.parents ++ parent ∷ [] }

-- `if let Some(n) = dag.get_mut(&key) { … }`
pub update : ℕ → (TypeNode → TypeNode) → Dag → Dag
update key f [] = []
update key f ((k, node) ∷ dag) =
    let rest = update key f dag in if k == key then (k, f node) ∷ dag else (k, node) ∷ rest

pub link : Dag → List (ℕ × ℕ) → Dag
unfolding update
link dag [] = dag
link dag ((child, parent) ∷ rows) =
    link (update child (push_parent parent) (update parent (push_child child) dag)) rows

-- `load_dag`, from the rows (type_id) and (type_id, parent_id) that it selects.
pub load_dag : List ℕ → List (ℕ × ℕ) → Dag
unfolding link
load_dag types parents = link (map new_node types) parents

insert_sorted : ℕ → List ℕ → List ℕ
insert_sorted x [] = x ∷ []
insert_sorted x (y ∷ ys) = if leb x y then x ∷ y ∷ ys else y ∷ insert_sorted x ys

-- `sort_unstable`: equal ids cannot be told apart
pub sort : List ℕ → List ℕ
unfolding insert_sorted
sort [] = []
sort (x ∷ xs) = insert_sorted x (sort xs)

pub contains : List ℕ → ℕ → Bool
contains [] id = false
contains (x ∷ xs) id = if x == id then true else contains xs id

-- What `assign` changes through its `&mut` arguments, but for the stack.
pub record Walk : Type 0 where
  pub cursor : ℕ
  pub path_counter : List (ℕ × ℕ)
  pub out : List Label

count_of : List (ℕ × ℕ) → ℕ → ℕ
count_of [] id = 0
count_of ((k, n) ∷ m) id = if k == id then n else count_of m id

set_count : List (ℕ × ℕ) → ℕ → ℕ → List (ℕ × ℕ)
set_count [] id n = (id, n) ∷ []
set_count ((k, m) ∷ rest) id n = if k == id then (k, n) ∷ rest else (k, m) ∷ set_count rest id n

-- The row of a type whose interval ends at the cursor.
abbrev pub new_label : ℕ → ℕ → ℕ → Walk → Label
unfolding count_of
new_label id depth lft w = record {
  type_id = id;
  path_id = count_of w.path_counter id;
  lft = lft;
  rgt = w.cursor;
  depth = depth;
}

-- The end of `assign`: the right edge, the row and the next path id.
pub close : ℕ → ℕ → ℕ → Walk → Walk
unfolding set_count count_of
close id depth lft w = record {
  cursor = w.cursor + gap;
  path_counter = set_count w.path_counter id (count_of w.path_counter id + 1);
  out = w.out ++ new_label id depth lft w ∷ [];
}

-- A loop that labels one type after the other.
pub each : (ℕ → Walk → Result LabelError Walk) → List ℕ → Walk → Result LabelError Walk
each step [] w = ok w
each step (id ∷ ids) w = do w' ← step id w; each step ids w'

-- The stack is the ids under way, the innermost first; a call that returns leaves it as it was.
pub assign : ℕ → Dag → ℕ → List ℕ → ℕ → Walk → Result LabelError Walk
assign zero dag depth stack id w = err out_of_fuel
assign (suc fuel) dag depth stack id w =
    let walked : Result LabelError Walk = elim (find dag id) [
      | none ↦ err (missing id)
      | some node ↦ do
        w' ←
            each (assign fuel dag (depth + 1) (id ∷ stack)) (sort node.children)
              (record w { cursor = w.cursor + gap })
        ok (close id depth w.cursor w')
    ] in
    if contains stack id then err (cycle_at id) else walked

-- The ids that `relabel_graph` reaches from the queue, whose last element stands first here. `guard`
-- counts the rounds, which the limit bounds.
pub walk : ℕ → Dag → ℕ → ℕ → List ℕ → List ℕ → Result LabelError (List ℕ)
walk zero dag limit guard queue reachable = err out_of_fuel
walk (suc fuel) dag limit guard [] reachable = ok reachable
walk (suc fuel) dag limit guard (id ∷ queue) reachable =
    let skip = walk fuel dag limit (guard + 1) queue reachable in
    let expand : Result LabelError (List ℕ) = elim (find dag id) [
      | none ↦ err (missing id)
      | some node ↦
          walk fuel dag limit (guard + 1) (reverse node.children ++ queue) (id ∷ reachable)
    ] in
    if ltb limit (guard + 1)
    then err cycle_in_walk
    else if contains reachable id
    then skip
    else expand

is_root : TypeNode → Bool
is_root node = elim node.parents [ [] ↦ true | _ ∷ _ ↦ false ]

pub root_ids : Dag → List ℕ
root_ids [] = []
root_ids ((id, node) ∷ dag) = if is_root node then id ∷ root_ids dag else root_ids dag

-- The labels under the given roots, from the first cursor on. No id is met twice on the way down, so
-- the calls nest at most once for each type.
pub assign_all : Dag → List ℕ → Result LabelError Walk
unfolding assign
assign_all dag roots =
    each (assign (length dag + 1) dag 0 []) roots
      (record { cursor = 1; path_counter = []; out = [] })

-- `relabel_graph`: the rows that replace the labels of the graph, or `none` if it has no types and
-- the labels stay.
pub relabel : Dag → Result LabelError (Option (List Label))
unfolding root_ids is_root walk assign_all
relabel [] = ok none
relabel (t ∷ dag) = do
  let roots = sort (root_ids (t ∷ dag))
  let limit = length (t ∷ dag) * 64
  reachable ← walk (limit + 2) (t ∷ dag) limit 0 (reverse roots) []
  if length reachable == length (t ∷ dag)
      then (do w ← assign_all (t ∷ dag) roots; ok (some w.out))
      else err orphans

-- The condition of the SQL of `og_is_subtype` on a row of each type.
pub encloses : Label → Label → Bool
encloses a d = leb a.lft d.lft && leb d.rgt a.rgt

pub any_encloses : List Label → ℕ → Label → Bool
unfolding encloses
any_encloses [] sup d = false
any_encloses (a ∷ rows) sup d = (a.type_id == sup && encloses a d) || any_encloses rows sup d

any_below : List Label → List Label → ℕ → ℕ → Bool
unfolding any_encloses
any_below rows [] sub sup = false
any_below rows (d ∷ ds) sub sup =
    (d.type_id == sub && any_encloses rows sup d) || any_below rows ds sub sup

-- `og_is_subtype` over the rows of the graph: is there a row of `sub` inside a row of `sup`?
pub is_subtype : List Label → ℕ → ℕ → Bool
unfolding any_below
is_subtype rows sub sup = any_below rows rows sub sup
