-- ===== src/Session/Json.antt =====
-- The `serde_json::Value` that bolt/src/session.rs exchanges with the engine. Its maps are ordered by
-- their keys. A number is an `i64`, or else what `as_f64` gives, as a 64-bit pattern.
use ontological_db.Base.{ℕ, Bool, if◌then◌else◌, List, Option, none, some, list_eq}
use ontological_db.Base.Int.{ℤ}
use ontological_db.PackStream.Value.{text_lt}

mutual
  pub data Json : Type 0 where
    null : Json
    bool : Bool → Json
    integer : ℤ → Json
    number : ℕ → Json
    string : List ℕ → Json
    array : Elements → Json
    object : Members → Json

  pub data Elements : Type 0 where
    nil : Elements
    cons : Json → Elements → Elements

  pub data Members : Type 0 where
    end : Members
    member : List ℕ → Json → Members → Members

unfoldable pub put : List ℕ → Json → Members → Members
unfolding text_lt
put k v end = member k v end
put k v (member j w m) =
    if text_lt k j
    then member k v (member j w m)
    else if list_eq k j
    then member j v m
    else member j w (put k v m)

unfoldable pub find : List ℕ → Members → Option Json
find k end = none
find k (member j w m) = if list_eq k j then some w else find k m

-- `Value::get` with a key
unfoldable pub get : Json → List ℕ → Option Json
unfolding find
get (object m) k = find k m
get _ k = none

unfoldable pub as_i64 : Json → Option ℤ
as_i64 (integer i) = some i
as_i64 _ = none

unfoldable pub as_str : Json → Option (List ℕ)
as_str (string s) = some s
as_str _ = none

unfoldable pub as_bool : Json → Option Bool
as_bool (bool b) = some b
as_bool _ = none
