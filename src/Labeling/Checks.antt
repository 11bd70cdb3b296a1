-- ===== src/Labeling/Checks.antt =====
-- The labels of a small hierarchy of engine/src/catalog/labeling.rs, one type of which has two parents.
use ontological_db.Base.{ℕ, ◌≡◌, ◌≢◌, ◌↔◌, refl, List, [], ◌∷◌, some, true}
use ontological_db.Base.Outcome.{ok, err}
use ontological_db.Labeling.{
  TypeNode, Dag, Label, cycle_at, out_of_fuel, load_dag, relabel, sort, contains, find, each, close,
  is_subtype,
}
use ontological_db.Labeling.Paths.{In, first, Reaches}
use ontological_db.Labeling.Reachable.{keys}
use ontological_db.Labeling.Subtypes.{is_subtype_iff}
use ontological_db.Labeling.Errors.{Above, relabel_ends, relabel_cycle}
use ontological_db.Labeling.Loading.{children_in, parents_in, find-load_dag}
use ontological_db.Labeling.Listing.{subtypes, supertypes, subtypes_iff, supertypes_iff}
use ontological_db.Labeling.Reachable.{Distinct}

-- 4 lies below 2 and 3, which lie below 1.
abbrev diamond : Dag
diamond = load_dag (3 ∷ 1 ∷ 4 ∷ 2 ∷ []) ((2, 1) ∷ (3, 1) ∷ (4, 3) ∷ (4, 2) ∷ [])

abbrev diamond_rows : List Label
diamond_rows =
    record { type_id = 4; path_id = 0; lft = 2049; rgt = 3073; depth = 2 }
    ∷ record { type_id = 2; path_id = 0; lft = 1025; rgt = 4097; depth = 1 }
    ∷ record { type_id = 4; path_id = 1; lft = 6145; rgt = 7169; depth = 2 }
    ∷ record { type_id = 3; path_id = 0; lft = 5121; rgt = 8193; depth = 1 }
    ∷ record { type_id = 1; path_id = 0; lft = 1; rgt = 9217; depth = 0 }
    ∷ []

diamond_labels : relabel diamond ≡ ok (some diamond_rows)
unfolding relabel load_dag sort contains find each close
diamond_labels = refl

is_subtype_iff_example : (is_subtype diamond_rows 4 3 ≡ true) ↔ Reaches diamond 3 4
unfolding keys load_dag
is_subtype_iff_example = is_subtype_iff diamond diamond_rows 4 3 diamond_labels first

-- 2 and 3 are each other's parents, below 1.
abbrev looped : Dag
looped = load_dag (1 ∷ 2 ∷ 3 ∷ []) ((2, 1) ∷ (3, 2) ∷ (2, 3) ∷ [])

looped_error : relabel looped ≡ err (cycle_at 2)
unfolding relabel load_dag sort contains find each close
looped_error = refl

relabel_ends_example : relabel looped ≢ err out_of_fuel
relabel_ends_example = relabel_ends looped

relabel_cycle_example : Above looped 2 2
relabel_cycle_example = relabel_cycle looped 2 looped_error

subtypes_iff_example :
    Distinct (subtypes diamond_rows 3)
    × ((x : ℕ) → In x (subtypes diamond_rows 3) ↔ Reaches diamond 3 x)
unfolding keys load_dag
subtypes_iff_example = subtypes_iff diamond diamond_rows 3 diamond_labels first

supertypes_iff_example :
    Distinct (supertypes diamond_rows 4)
    × ((x : ℕ) → In x (keys diamond) → In x (supertypes diamond_rows 4) ↔ Reaches diamond x 4)
supertypes_iff_example = supertypes_iff diamond diamond_rows 4 diamond_labels

find-load_dag_example :
    (m : TypeNode) × (find (load_dag (1 ∷ 2 ∷ 3 ∷ []) ((2, 1) ∷ (3, 1) ∷ [])) 1 ≡ some m)
    × (m.children ≡ children_in ((2, 1) ∷ (3, 1) ∷ []) 1)
    × (m.parents ≡ parents_in ((2, 1) ∷ (3, 1) ∷ []) 1)
find-load_dag_example = find-load_dag (1 ∷ 2 ∷ 3 ∷ []) ((2, 1) ∷ (3, 1) ∷ []) 1 first
