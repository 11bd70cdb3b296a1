-- ===== src/Session/Values.antt =====
-- The mapping between Bolt values and the engine's JSON in bolt/src/session.rs.
use ontological_db.Base.{ℕ, ◌+◌, ◌/◌, ◌%◌, ◌^◌, Bool, true, false, ◌==◌, ltb, if◌then◌else◌}
use ontological_db.Base.{List, [], ◌∷◌, ◌++◌, Option, none, some}
use ontological_db.Base.Int.{ℤ}
use ontological_db.Text.Strings.{codes}
use ontological_db.PackStream.Value.{Value, Values, Entries, insert_all}
use ontological_db.PackStream.Value
use ontological_db.Session.Json.{Json, Elements, Members}
use ontological_db.Session.Json

-- `f64::is_finite`
abbrev pub is_finite : ℕ → Bool
is_finite x = if x / 2 ^ 52 % 2048 == 2047 then false else true

-- A digit of `{:X}`.
abbrev pub hex_digit : ℕ → ℕ
hex_digit d = if ltb d 10 then 48 + d else 55 + d

abbrev pub unsupported : ℕ → List ℕ
unsupported sig =
    codes "<unsupported struct 0x" ++ hex_digit (sig / 16) ∷ hex_digit (sig % 16) ∷ codes ">"

unfoldable mutual
  unfolding Json.put

  pub to_json : Value → Json
  to_json Value.null = Json.null
  to_json (Value.bool b) = Json.bool b
  to_json (Value.int i) = Json.integer i
  to_json (Value.float x) = if is_finite x then Json.number x else Json.null
  to_json (Value.string s) = Json.string s
  to_json (Value.list xs) = Json.array (to_elements xs)
  to_json (Value.dict m) = Json.object (to_members Json.end m)
  to_json (Value.structure sig fs) = Json.string (unsupported sig)

  pub to_elements : Values → Elements
  to_elements Value.nil = Json.nil
  to_elements (Value.cons v vs) = Json.cons (to_json v) (to_elements vs)

  -- `collect`, into what is already there.
  pub to_members : Members → Entries → Members
  to_members m Value.end = m
  to_members m (Value.entry k v es) = to_members (Json.put k (to_json v) m) es

abbrev pub relationship : ℕ
relationship = 0x52

abbrev pub node : ℕ
node = 0x4E

-- The four-way match on `_id`, `_type`, `_src` and `_dst`.
unfoldable pub described :
    Option ℤ → Option (List ℕ) → Option ℤ → Option ℤ → Entries → Entries → Value
described (some id) (some ty) (some src) (some dst) props whole = Value.structure relationship (
    Value.cons (Value.int id) (
      Value.cons (Value.int src) (
        Value.cons (Value.int dst)
          (Value.cons (Value.string ty) (Value.cons (Value.dict props) Value.nil)))))
described (some id) (some ty) _ _ props whole = Value.structure node (
    Value.cons (Value.int id) (
      Value.cons (Value.list (Value.cons (Value.string ty) Value.nil))
        (Value.cons (Value.dict props) Value.nil)))
described _ _ _ _ props whole = Value.dict whole

abbrev pub int_at : List ℕ → Members → Option ℤ
int_at k m = elim (Json.find k m) [ none ↦ none | some v ↦ Json.as_i64 v ]

abbrev pub text_at : List ℕ → Members → Option (List ℕ)
text_at k m = elim (Json.find k m) [ none ↦ none | some v ↦ Json.as_str v ]

-- `!k.starts_with('_')`
abbrev pub is_property : List ℕ → Bool
is_property [] = true
is_property (b ∷ bs) = if b == 95 then false else true

unfoldable mutual
  unfolding described insert_all Json.find

  pub to_bolt : Json → Value
  to_bolt Json.null = Value.null
  to_bolt (Json.bool b) = Value.bool b
  to_bolt (Json.integer i) = Value.int i
  to_bolt (Json.number x) = Value.float x
  to_bolt (Json.string s) = Value.string s
  to_bolt (Json.array xs) = Value.list (to_values xs)
  to_bolt (Json.object m) =
      described (int_at (codes "_id") m) (text_at (codes "_type") m) (int_at (codes "_src") m)
        (int_at (codes "_dst") m) (insert_all Value.end (properties m))
        (insert_all Value.end (to_entries m))

  pub to_values : Elements → Values
  to_values Json.nil = Value.nil
  to_values (Json.cons v vs) = Value.cons (to_bolt v) (to_values vs)

  pub to_entries : Members → Entries
  to_entries Json.end = Value.end
  to_entries (Json.member k v m) = Value.entry k (to_bolt v) (to_entries m)

  pub properties : Members → Entries
  properties Json.end = Value.end
  properties (Json.member k v m) =
      let rest = properties m in if is_property k then Value.entry k (to_bolt v) rest else rest

-- One row, in the order of the fields that the query asked for.
unfoldable pub project : Json → List (List ℕ) → Values
unfolding Json.get
project json [] = Value.nil
project json (f ∷ fs) =
    Value.cons (elim (Json.get json f) [ none ↦ Value.null | some v ↦ to_bolt v ]) (project json fs)

unfoldable pub row_record : Json → List (List ℕ) → Value
row_record json fields = Value.list (project json fields)
