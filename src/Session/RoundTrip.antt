-- ===== src/Session/RoundTrip.antt =====
-- The conversions `to_json` and `to_bolt` of bolt/src/session.rs.
use ontological_db.Base.{
  subst, ℕ, ◌≡◌, refl, sym, ap, ap₂, ◌∙◌, inl, inr, true, Bool-cases, List, Option, none, some,
  list_eq,
}
use ontological_db.Base.Int.{ℤ}
use ontological_db.Text.Strings.{codes}
use ontological_db.PackStream.Value.{Value, Values, Entries, text_lt, insert, insert_all, IsSorted}
use ontological_db.PackStream.Value
use ontological_db.PackStream.Sorted.{insert_all-sorted}
use ontological_db.Session.Json.{Json, Elements, Members}
use ontological_db.Session.Json
use ontological_db.Session.Values.{
  to_json, to_elements, to_members, to_bolt, to_values, to_entries, properties, described, int_at,
  text_at, is_finite,
}

abbrev pub int_in : List ℕ → Entries → Option ℤ
int_in k m = elim (Value.get k m) [ none ↦ none | some v ↦ Value.as_i64 v ]

abbrev pub text_in : List ℕ → Entries → Option (List ℕ)
text_in k m = elim (Value.get k m) [ none ↦ none | some v ↦ Value.as_str v ]

-- A map with an integer `_id` and a text `_type` stands for a node or a relationship.
abbrev pub Describes : Option ℤ → Option (List ℕ) → Type 0
Describes none ty = ⊥
Describes (some id) none = ⊥
Describes (some id) (some ty) = Unit

abbrev mutual
  -- What JSON can carry: finite numbers, no structures, and maps that are sorted, as every map of
  -- the source is, and do not look like a node or a relationship.
  pub IsPlain : Value → Type 0
  IsPlain (Value.float x) = is_finite x ≡ true
  IsPlain (Value.list xs) = ArePlain xs
  IsPlain (Value.dict m) =
      IsSorted m
      × (Describes (int_in (codes "_id") m) (text_in (codes "_type") m) → ⊥)
      × EntriesPlain m
  IsPlain (Value.structure sig fs) = ⊥
  IsPlain Value.null = Unit
  IsPlain (Value.bool b) = Unit
  IsPlain (Value.int i) = Unit
  IsPlain (Value.string s) = Unit

  pub ArePlain : Values → Type 0
  ArePlain Value.nil = Unit
  ArePlain (Value.cons v vs) = IsPlain v × ArePlain vs

  pub EntriesPlain : Entries → Type 0
  EntriesPlain Value.end = Unit
  EntriesPlain (Value.entry k v es) = IsPlain v × EntriesPlain es

to_entries-put :
    (k : List ℕ) (j : Json) (m : Members)
    → to_entries (Json.put k j m) ≡ insert k (to_bolt j) (to_entries m)
unfolding Json.put insert to_entries
to_entries-put k j Json.end = refl
to_entries-put k j (Json.member i w m) =
    let again = to_entries-put k j m in
    elim (Bool-cases (text_lt k i)) [
      | inl e ↦ rw e refl
      | inr e ↦ elim (Bool-cases (list_eq k i)) [
        | inl q ↦ rw (e, q) refl
        | inr q ↦ rw (e, q) (ap (Value.entry i (to_bolt w)) again)
      ]
    ]

described-map :
    (id : Option ℤ) (ty : Option (List ℕ)) (src dst : Option ℤ) (props whole : Entries)
    → (Describes id ty → ⊥)
    → described id ty src dst props whole ≡ Value.dict whole
unfolding described
described-map none ty src dst props whole h = refl
described-map (some id) none src dst props whole h = refl
described-map (some id) (some ty) src dst props whole h = absurd (h tt)

as_i64-to_bolt : (j : Json) → Value.as_i64 (to_bolt j) ≡ Json.as_i64 j
unfolding Value.as_i64 Json.as_i64 to_bolt
as_i64-to_bolt Json.null = refl
as_i64-to_bolt (Json.bool b) = refl
as_i64-to_bolt (Json.integer i) = refl
as_i64-to_bolt (Json.number x) = refl
as_i64-to_bolt (Json.string s) = refl
as_i64-to_bolt (Json.array xs) = refl
as_i64-to_bolt (Json.object m) =
    never (int_at (codes "_id") m) (text_at (codes "_type") m) (int_at (codes "_src") m)
      (int_at (codes "_dst") m)
  where
    never :
        (id : Option ℤ) (ty : Option (List ℕ)) (src dst : Option ℤ)
        → Value.as_i64 (
            described id ty src dst
              (insert_all Value.end (properties m))
              (insert_all Value.end (to_entries m)))
          ≡ none
    never none ty src dst = refl
    never (some id) none src dst = refl
    never (some id) (some ty) none dst = refl
    never (some id) (some ty) (some src) none = refl
    never (some id) (some ty) (some src) (some dst) = refl

as_str-to_bolt : (j : Json) → Value.as_str (to_bolt j) ≡ Json.as_str j
unfolding Value.as_str Json.as_str to_bolt
as_str-to_bolt Json.null = refl
as_str-to_bolt (Json.bool b) = refl
as_str-to_bolt (Json.integer i) = refl
as_str-to_bolt (Json.number x) = refl
as_str-to_bolt (Json.string s) = refl
as_str-to_bolt (Json.array xs) = refl
as_str-to_bolt (Json.object m) =
    never (int_at (codes "_id") m) (text_at (codes "_type") m) (int_at (codes "_src") m)
      (int_at (codes "_dst") m)
  where
    never :
        (id : Option ℤ) (ty : Option (List ℕ)) (src dst : Option ℤ)
        → Value.as_str (
            described id ty src dst
              (insert_all Value.end (properties m))
              (insert_all Value.end (to_entries m)))
          ≡ none
    never none ty src dst = refl
    never (some id) none src dst = refl
    never (some id) (some ty) none dst = refl
    never (some id) (some ty) (some src) none = refl
    never (some id) (some ty) (some src) (some dst) = refl

to_bolt_option : Option Json → Option Value
to_bolt_option none = none
to_bolt_option (some j) = some (to_bolt j)

get-to_entries :
    (k : List ℕ) (m : Members) → Value.get k (to_entries m) ≡ to_bolt_option (Json.find k m)
unfolding Json.find Value.get to_entries to_bolt_option
get-to_entries k Json.end = refl
get-to_entries k (Json.member i w m) =
    let again = get-to_entries k m in
    elim (Bool-cases (list_eq k i)) [ inl e ↦ rw e refl | inr e ↦ rw e again ]

int_at-to_entries : (k : List ℕ) (m : Members) → int_at k m ≡ int_in k (to_entries m)
int_at-to_entries k m = found (Json.find k m) ∙ ap as_int (sym (get-to_entries k m))
  where
    as_int : Option Value → Option ℤ
    as_int o = elim o [ none ↦ none | some v ↦ Value.as_i64 v ]

    found :
        (o : Option Json)
        → (let read : Option ℤ = elim o [ none ↦ none | some v ↦ Json.as_i64 v ] in read)
          ≡ as_int (to_bolt_option o)
    found none = unfold to_bolt_option in refl
    found (some j) = unfold to_bolt_option in sym (as_i64-to_bolt j)

text_at-to_entries : (k : List ℕ) (m : Members) → text_at k m ≡ text_in k (to_entries m)
text_at-to_entries k m = found (Json.find k m) ∙ ap as_text (sym (get-to_entries k m))
  where
    as_text : Option Value → Option (List ℕ)
    as_text o = elim o [ none ↦ none | some v ↦ Value.as_str v ]

    found :
        (o : Option Json)
        → (let read : Option (List ℕ) = elim o [ none ↦ none | some v ↦ Json.as_str v ] in read)
          ≡ as_text (to_bolt_option o)
    found none = unfold to_bolt_option in refl
    found (some j) = unfold to_bolt_option in sym (as_str-to_bolt j)

to_bolt-object :
    (m : Members) (e : Entries)
    → to_entries m ≡ e
    → IsSorted e
    → (Describes (int_in (codes "_id") e) (text_in (codes "_type") e) → ⊥)
    → to_bolt (Json.object m) ≡ Value.dict e
unfolding to_bolt
to_bolt-object m e q s h =
    described-map (int_at (codes "_id") m) (text_at (codes "_type") m) (int_at (codes "_src") m)
      (int_at (codes "_dst") m) (insert_all Value.end (properties m))
      (insert_all Value.end (to_entries m))
      (λ d. h (
        subst (λ i. Describes i (text_in (codes "_type") e)) (ids ∙ ap (int_in (codes "_id")) q)
          (subst (λ t. Describes (int_at (codes "_id") m) t)
            (types ∙ ap (text_in (codes "_type")) q) d)))
    ∙ ap Value.dict (ap (insert_all Value.end) q ∙ insert_all-sorted e s)
  where
    ids : int_at (codes "_id") m ≡ int_in (codes "_id") (to_entries m)
    ids = int_at-to_entries (codes "_id") m

    types : text_at (codes "_type") m ≡ text_in (codes "_type") (to_entries m)
    types = text_at-to_entries (codes "_type") m

mutual
  unfolding to_json to_bolt insert_all

  to_bolt-to_json_all : (v : Value) → IsPlain v → to_bolt (to_json v) ≡ v
  to_bolt-to_json_all Value.null h = refl
  to_bolt-to_json_all (Value.bool b) h = refl
  to_bolt-to_json_all (Value.int i) h = refl
  to_bolt-to_json_all (Value.float x) h = rw h refl
  to_bolt-to_json_all (Value.string s) h = refl
  to_bolt-to_json_all (Value.list xs) h = ap Value.list (to_values-to_elements xs h)
  to_bolt-to_json_all (Value.dict m) (sorted, plain, all) =
      to_bolt-object (to_members Json.end m) m
        (to_entries-to_members Json.end m all ∙ insert_all-sorted m sorted) sorted plain
  to_bolt-to_json_all (Value.structure sig fs) h = absurd h

  to_values-to_elements : (vs : Values) → ArePlain vs → to_values (to_elements vs) ≡ vs
  to_values-to_elements Value.nil h = refl
  to_values-to_elements (Value.cons v vs) (h, hs) =
      ap₂ Value.cons (to_bolt-to_json_all v h) (to_values-to_elements vs hs)

  to_entries-to_members :
      (m : Members) (es : Entries)
      → EntriesPlain es
      → to_entries (to_members m es) ≡ insert_all (to_entries m) es
  to_entries-to_members m Value.end h = refl
  to_entries-to_members m (Value.entry k v es) (h, hs) =
      to_entries-to_members (Json.put k (to_json v) m) es hs
      ∙ ap (λ e. insert_all e es)
          (to_entries-put k (to_json v) m
            ∙ ap (λ w. insert k w (to_entries m)) (to_bolt-to_json_all v h))

-- `to_bolt` undoes `to_json` on every value with finite numbers, without structures and with sorted maps
-- that do not look like a node or a relationship. What the engine, its printer and jsonb make of the
-- value between the two conversions is not part of this.
pub to_bolt-to_json : (v : Value) → IsPlain v → to_bolt (to_json v) ≡ v
to_bolt-to_json v h = to_bolt-to_json_all v h
