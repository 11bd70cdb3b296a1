-- ===== src/Session/Settings.antt =====
-- The settings that a client passes in `tx_metadata`, for bolt/src/session.rs.
use ontological_db.Base.{
  ℕ, Bool, true, false, if◌then◌else◌, List, [], ◌∷◌, ◌++◌, Option, none, some, list_eq,
}
use ontological_db.Text.Strings.{codes}
use ontological_db.PackStream.Value.{Value, Entries}
use ontological_db.PackStream.Value
use ontological_db.Session.Json.{Json}
use ontological_db.Session.Values.{to_json}

abbrev pub Text : Type 0
Text = List ℕ

-- The keys that the gateway understands, and the setting that each becomes.
abbrev pub known_settings : List (Text × Text)
known_settings =
    (codes "actor", codes "og.actor")
    ∷ (codes "source", codes "og.source")
    ∷ (codes "reason", codes "og.reason")
    ∷ (codes "request_id", codes "og.request_id")
    ∷ (codes "requestId", codes "og.request_id")
    ∷ (codes "valid_at", codes "og.valid_at")
    ∷ (codes "validAt", codes "og.valid_at")
    ∷ (codes "system_at", codes "og.system_at")
    ∷ (codes "systemAt", codes "og.system_at")
    ∷ (codes "valid_from", codes "og.valid_from")
    ∷ (codes "validFrom", codes "og.valid_from")
    ∷ (codes "valid_to", codes "og.valid_to")
    ∷ (codes "validTo", codes "og.valid_to")
    ∷ []

-- `out.iter().any(|(s, _)| s == setting)`
unfoldable pub is_set : Text → List (Text × Text) → Bool
is_set setting [] = false
is_set setting ((s, v) ∷ out) = if list_eq s setting then true else is_set setting out

-- `print` is `serde_json::Value::to_string`.
module _ (print : Json → Text) where
  unfoldable pub json_text : Json → Text
  json_text (Json.string s) = s
  json_text j = print j

  -- `none` for a null, which is passed over.
  unfoldable pub setting_text : Value → Option Text
  unfolding json_text to_json
  setting_text (Value.string s) = some s
  setting_text Value.null = none
  setting_text other = some (json_text (to_json other))

  unfoldable pub gather : Entries → List (Text × Text) → List (Text × Text) → List (Text × Text)
  unfolding setting_text is_set Value.get
  gather meta [] out = out
  gather meta ((key, setting) ∷ known) out =
      let added : List (Text × Text) = elim (Value.get key meta) [
        | none ↦ out
        | some v ↦ elim (setting_text v) [
          | none ↦ out
          | some text ↦ if is_set setting out then out else out ++ (setting, text) ∷ []
        ]
      ] in
      gather meta known added

  unfoldable pub tx_settings : Value → List (Text × Text)
  unfolding gather Value.map_get
  tx_settings extra = elim (Value.map_get extra (codes "tx_metadata")) [
    | none ↦ []
    | some v ↦ elim v [ Value.dict meta ↦ gather meta known_settings [] | _ ↦ [] ]
  ]
