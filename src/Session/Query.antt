-- ===== src/Session/Query.antt =====
-- The queries of bolt/src/session.rs: the plumbing to PostgreSQL, transactions and `run_query`.
use ontological_db.Base.{
  zero, suc, ℕ, Bool, true, false, ◌||◌, if◌then◌else◌, List, [], ◌∷◌, ◌++◌, Option, none, some,
  list_eq,
}
use ontological_db.Base.Outcome.{Result, ok, err}
use ontological_db.Base.Int.{pos, negsuc}
use ontological_db.Text.Strings.{codes}
use ontological_db.PackStream.Value.{Value, Values, Entries}
use ontological_db.PackStream.Value
use ontological_db.Session.Json.{Json, Members}
use ontological_db.Session.Json
use ontological_db.Session.Values.{to_json, row_record}
use ontological_db.Session.Settings.{Text, tx_settings}
use ontological_db.Session.Postgres.{Config, PgError, Postgres}
use ontological_db.Session.Prefix.{split_plan_prefix}
use ontological_db.Session.State.{
  Session, streaming, client_failure, from_pg, map_of, Outcome, done, failure, panic, Exec, pure,
  fail, modify, ◌>>=◌, ◌>>◌, on_failure,
}

abbrev pub unauthorized : Text
unauthorized = codes "Neo.ClientError.Security.Unauthorized"

abbrev pub invalid_request : Text
invalid_request = codes "Neo.ClientError.Request.Invalid"

-- `extra.map_get(key).and_then(Value::as_str)`
unfoldable pub text_field : Value → Text → Option Text
unfolding Value.map_get Value.as_str
text_field extra key = elim (Value.map_get extra key) [ none ↦ none | some v ↦ Value.as_str v ]

-- The field at a place, or null if the message is shorter.
unfoldable pub field_at : ℕ → Values → Value
field_at n Value.nil = Value.null
field_at zero (Value.cons v vs) = v
field_at (suc n) (Value.cons v vs) = field_at n vs

-- `fields.pop()`, or null
unfoldable pub last_field : Values → Value
last_field Value.nil = Value.null
last_field (Value.cons v Value.nil) = v
last_field (Value.cons v (Value.cons w vs)) = last_field (Value.cons w vs)

unfoldable pub texts : List Text → Values
texts [] = Value.nil
texts (t ∷ ts) = Value.cons (Value.string t) (texts ts)

-- The reply to a RUN.
unfoldable pub opened : List Text → Value
unfolding texts
opened fields = map_of (
    Value.entry (codes "fields") (Value.list (texts fields)) (
      Value.entry (codes "t_first") (Value.int (pos 0))
        (Value.entry (codes "qid") (Value.int (negsuc 0)) Value.end)))

abbrev pub keys : Members → List Text
keys Json.end = []
keys (Json.member k v m) = k ∷ keys m

-- `RETURN *`: without columns from the parser, the keys of the first row that is an object.
abbrev pub fields_or_keys : List Text → Json → List Text
fields_or_keys (f ∷ fs) json = f ∷ fs
fields_or_keys [] (Json.object m) = keys m
fields_or_keys [] _ = []

module _ (pg : Postgres) (config : Config) where
  open pg use {World, print, parse, connect, batch, set_config, check, columns, cypher, process_id}

  abbrev pub Act : Type 0 → Type 0
  Act A = Exec (Session World) A

  unfoldable pub asked :
      {A : Type 0} → Session World → Result PgError A × World → Outcome A × Session World
  unfolding from_pg
  asked s (ok a, w) = (done a, record s { world = w })
  asked s (err e, w) = (failure (from_pg e), record s { world = w })

  -- `self.client()?`, and a call whose error becomes a failure.
  unfoldable pub ask : {A : Type 0} → (World → Result PgError A × World) → Act A
  unfolding asked
  ask call s =
      if s.connected
      then asked s (call s.world)
      else (failure (client_failure unauthorized (codes "no HELLO on this connection")), s)

  unfoldable pub sql : Text → Act (Unit {0})
  unfolding ask
  sql stmt = ask (batch stmt)

  unfoldable pub apply_settings : List (Text × Text) → Act (Unit {0})
  unfolding ask
  apply_settings [] = pure tt
  apply_settings ((k, v) ∷ rest) = ask (set_config k v) >> apply_settings rest

  -- A database named by the client, but for the names that drivers send for the default.
  unfoldable pub named_graph : Value → Option Text
  unfolding text_field
  named_graph extra = elim (text_field extra (codes "db")) [
    | none ↦ none
    | some db ↦
        if list_eq db [] || list_eq db (codes "neo4j") || list_eq db (codes "system")
        then none
        else some db
  ]

  unfoldable pub select_graph : Value → Act (Unit {0})
  unfolding named_graph
  select_graph extra = modify λ s. elim (named_graph extra) [
    | some db ↦ record s { graph = db }
    | none ↦ if s.in_tx then s else record s { graph = config.default_graph }
  ]

  unfoldable pub begin : Value → Act Value
  unfolding select_graph sql apply_settings tx_settings
  begin extra = do
    select_graph extra
    sql (codes "BEGIN")
    modify (λ s. record s { in_tx = true; tx_meta = tx_settings print extra })
    apply_settings (tx_settings print extra)
    pure (Value.dict Value.end)

  abbrev pub bookmark : Value
  bookmark = Value.string (codes "ontological:0")

  unfoldable pub end_tx : Text → Act Value
  unfolding sql
  end_tx verb = do
    sql verb
    modify (λ s. record s { in_tx = false; tx_meta = [] })
    pure (map_of (Value.entry (codes "bookmark") bookmark Value.end))

  -- The verdict of the engine's parser, as the text of a JSON value.
  unfoldable pub verdict : Json → Act Bool
  unfolding Json.get Json.as_bool Json.as_str
  verdict answer =
      let accepted : Bool = elim (Json.get answer (codes "ok")) [
        | none ↦ false
        | some v ↦ elim (Json.as_bool v) [ some true ↦ true | _ ↦ false ]
      ] in
      let writes : Bool = elim (Json.get answer (codes "write")) [
        | none ↦ false
        | some v ↦ elim (Json.as_bool v) [ some true ↦ true | _ ↦ false ]
      ] in
      let unparsed = codes "query did not parse" in
      let message : Text = elim (Json.get answer (codes "error")) [
        | none ↦ unparsed
        | some v ↦ elim (Json.as_str v) [ some m ↦ m | none ↦ unparsed ]
      ] in
      if accepted
      then pure writes
      else fail (client_failure (codes "Neo.ClientError.Statement.SyntaxError") message)

  abbrev pub parse_or_null : Text → Json
  parse_or_null t = elim (parse t) [ none ↦ Json.null | some j ↦ j ]

  unfoldable pub is_write : Text → Act Bool
  unfolding ask verdict
  is_write query = do raw ← ask (check query); verdict (parse_or_null raw)

  -- The rows of the answer as records, and the fields that they are read by.
  unfoldable pub records : List (Option Text) → List Text → List Value → List Text × List Value
  unfolding row_record
  records [] fields out = (fields, out)
  records (raw ∷ rows) fields out =
      let json : Json = elim raw [ none ↦ Json.null | some t ↦ parse_or_null t ] in
      let fields' = fields_or_keys fields json in
      records rows fields' (out ++ row_record json fields' ∷ [])

  -- The result that PULL streams.
  abbrev pub open_result : List Text → List Value → Session World → Session World
  open_result fields rows s = record s {
    fields = fields;
    pending = rows;
    cursor = 0;
    state = streaming;
  }

  -- Settings of its own give an auto-commit query a transaction to hold them.
  unfoldable pub execute : List (Text × Text) → Act (List (Option Text)) → Act (List (Option Text))
  unfolding sql apply_settings
  execute [] run = run
  execute (o ∷ own) run = do
    sql (codes "BEGIN")
    on_failure (apply_settings (o ∷ own)) (sql (codes "ROLLBACK"))
    rows ← on_failure run (sql (codes "ROLLBACK"))
    sql (codes "COMMIT")
    pure rows

  unfoldable pub run_rows : Text → Value → Value → Act Value
  unfolding ask execute records tx_settings
  run_rows query params extra = do
    cols ← ask (columns query)
    rows ← λ s.
        execute (if s.in_tx then [] else tx_settings print extra)
          (ask (cypher s.graph query (print (to_json params)))) s
    let (fields, out) = records rows cols []
    modify (open_result fields out)
    pure (opened fields)

  -- A slice inside a character panics.
  abbrev pub prefixed : Option (Text × Bool) → Act (Text × Bool)
  prefixed none s = (panic, s)
  prefixed (some p) s = (done p, s)

  unfoldable pub plan_prefix : Text → Act (Text × Bool)
  unfolding split_plan_prefix
  plan_prefix query = prefixed (split_plan_prefix query)

  abbrev pub required : Option Text → Act Text
  required none = fail (client_failure invalid_request (codes "RUN without a query"))
  required (some q) = pure q

  unfoldable pub query_text : Values → Act Text
  unfolding field_at Value.as_str
  query_text fields = required (Value.as_str (field_at 0 fields))

  unfoldable pub run_query : Values → Act Value
  unfolding query_text select_graph plan_prefix is_write run_rows field_at
  run_query fields = do
    query ← query_text fields
    select_graph (field_at 2 fields)
    (body, plan_only) ← plan_prefix query
    write ← is_write body
    modify (λ s. record s { writes = write })
    if plan_only
        then (modify (open_result [] []) >> pure (opened []))
        else run_rows query (field_at 1 fields) (field_at 2 fields)
