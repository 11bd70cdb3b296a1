-- ===== src/PackStream/Value.antt =====
-- The `Value` of bolt/src/packstream.rs and its accessors.
-- A text is the list of its UTF-8 bytes, an `i64` a `ℤ`, an `f64` its 64-bit pattern, and a
-- `BTreeMap<String, Value>` the list of its entries in the order of their keys.
use ontological_db.Base.{ℕ, suc, ◌≡◌, Bool, true, false, ltb, ◌==◌}
use ontological_db.Base.{if◌then◌else◌, List, [], ◌∷◌, Option, none, some, list_eq, max}
use ontological_db.Base.Int.{ℤ}

mutual
  pub data Value : Type 0 where
    null : Value
    bool : Bool → Value
    int : ℤ → Value
    float : ℕ → Value
    string : List ℕ → Value
    list : Values → Value
    dict : Entries → Value
    structure : ℕ → Values → Value

  -- `Vec<Value>`
  pub data Values : Type 0 where
    nil : Values
    cons : Value → Values → Values

  -- `BTreeMap<String, Value>`
  pub data Entries : Type 0 where
    end : Entries
    entry : List ℕ → Value → Entries → Entries

abbrev pub count : Values → ℕ
count nil = 0
count (cons v vs) = suc (count vs)

abbrev pub count_entries : Entries → ℕ
count_entries end = 0
count_entries (entry k v es) = suc (count_entries es)

-- The order of keys: the bytes in turn.
unfoldable pub text_lt : List ℕ → List ℕ → Bool
text_lt [] [] = false
text_lt [] (b ∷ bs) = true
text_lt (a ∷ as') [] = false
text_lt (a ∷ as') (b ∷ bs) = if ltb a b then true else if a == b then text_lt as' bs else false

-- `BTreeMap::insert`
unfoldable pub insert : List ℕ → Value → Entries → Entries
unfolding text_lt
insert k v end = entry k v end
insert k v (entry j w es) =
    if text_lt k j
    then entry k v (entry j w es)
    else if list_eq k j
    then entry j v es
    else entry j w (insert k v es)

-- `BTreeMap::get`
unfoldable pub get : List ℕ → Entries → Option Value
get k end = none
get k (entry j w es) = if list_eq k j then some w else get k es

unfoldable pub as_str : Value → Option (List ℕ)
as_str (string s) = some s
as_str _ = none

unfoldable pub as_i64 : Value → Option ℤ
as_i64 (int i) = some i
as_i64 _ = none

unfoldable pub map_get : Value → List ℕ → Option Value
unfolding get
map_get (dict m) key = get key m
map_get _ key = none

-- `m.into_iter().collect()` of entries into `m`
unfoldable pub insert_all : Entries → Entries → Entries
insert_all m end = m
insert_all m (entry k v es) = insert_all (insert k v m) es

-- Every key of the entries is above `k`, and so on down: what a `BTreeMap` holds by construction.
abbrev pub IsAbove : List ℕ → Entries → Type 0
IsAbove k end = Unit
IsAbove k (entry j v es) = text_lt k j ≡ true

abbrev pub IsSorted : Entries → Type 0
IsSorted end = Unit
IsSorted (entry k v es) = IsAbove k es × IsSorted es

unfoldable mutual
  -- How deep the containers of a value nest.
  pub nesting : Value → ℕ
  nesting (list xs) = suc (nesting_values xs)
  nesting (dict m) = suc (nesting_entries m)
  nesting (structure sig fs) = suc (nesting_values fs)
  nesting null = 0
  nesting (bool b) = 0
  nesting (int i) = 0
  nesting (float x) = 0
  nesting (string s) = 0

  pub nesting_values : Values → ℕ
  nesting_values nil = 0
  nesting_values (cons v vs) = max (nesting v) (nesting_values vs)

  pub nesting_entries : Entries → ℕ
  nesting_entries end = 0
  nesting_entries (entry k v es) = max (nesting v) (nesting_entries es)
