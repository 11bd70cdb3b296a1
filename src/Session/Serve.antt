-- ===== src/Session/Serve.antt =====
-- The messages of bolt/src/session.rs: HELLO, RESET, ROUTE, PULL and DISCARD, `dispatch` and the loop
-- over the messages of a connection.
use ontological_db.Base.{
  ℕ, ◌+◌, ◌-◌, ◌/◌, ◌%◌, ◌&&◌, not, min, Bool, true, false, ◌==◌, ltb, if◌then◌else◌, List, [], ◌∷◌,
  ◌++◌, map, Option, none, some, list_eq, length, take, drop,
}
use ontological_db.Base.Outcome.{Result, ok, err}
use ontological_db.Base.Int.{ℤ, pos, negsuc}
use ontological_db.Text.Strings.{codes}
use ontological_db.PackStream.Value.{Value, Values, Entries}
use ontological_db.PackStream.Value
use ontological_db.Session.Values.{to_bolt, hex_digit}
use ontological_db.Session.Settings.{Text}
use ontological_db.Session.Postgres.{Config, PgError, Postgres}
use ontological_db.Session.State.{
  Session, State, ready, streaming, failed, Failure, client_failure, map_of, into_message, Outcome,
  done, failure, panic, pg_message,
}
use ontological_db.Session.Query.{
  Act, unauthorized, invalid_request, text_field, last_field, begin, end_tx, run_query,
}

abbrev pub hello_sig : ℕ
hello_sig = 0x01

abbrev pub goodbye_sig : ℕ
goodbye_sig = 0x02

abbrev pub reset_sig : ℕ
reset_sig = 0x0F

abbrev pub run_sig : ℕ
run_sig = 0x10

abbrev pub begin_sig : ℕ
begin_sig = 0x11

abbrev pub commit_sig : ℕ
commit_sig = 0x12

abbrev pub rollback_sig : ℕ
rollback_sig = 0x13

abbrev pub discard_sig : ℕ
discard_sig = 0x2F

abbrev pub pull_sig : ℕ
pull_sig = 0x3F

abbrev pub route_sig : ℕ
route_sig = 0x66

abbrev pub success : Value → Value
success meta = Value.structure 0x70 (Value.cons meta Value.nil)

abbrev pub record_message : Value → Value
record_message rec = Value.structure 0x71 (Value.cons rec Value.nil)

abbrev pub ignored : Value
ignored = Value.structure 0x7E Value.nil

-- What one message brings: the messages written, or the end of the connection.
pub data Reply : Type 0 where
  wrote : List Value → Reply
  goodbye not_a_message crashed : Reply

-- How many records a PULL takes. `-1` means all, and so does any other negative number.
unfoldable pub want : Value → ℤ
unfolding Value.map_get Value.as_i64
want extra = elim (Value.map_get extra (codes "n")) [
  | none ↦ negsuc 0
  | some v ↦ elim (Value.as_i64 v) [ none ↦ negsuc 0 | some i ↦ i ]
]

abbrev pub wanted : ℤ → ℕ → ℕ
wanted (negsuc n) remaining = remaining
wanted (pos n) remaining = min n remaining

abbrev pub is_streaming : State → Bool
is_streaming streaming = true
is_streaming ready = false
is_streaming failed = false

abbrev pub is_failed : State → Bool
is_failed failed = true
is_failed ready = false
is_failed streaming = false

module _ (pg : Postgres) (config : Config) where
  open pg use {World, parse, connect, batch, stats, process_id}

  -- The answer to a HELLO that could log in.
  abbrev pub greeting : Value
  greeting = map_of (
      Value.entry (codes "server") (Value.string (codes "Neo4j/4.4.0 (ontological-bolt)")) (
        Value.entry (codes "connection_id") (Value.string (codes "bolt-" ++ process_id))
          (Value.entry (codes "hints") (Value.dict Value.end) Value.end)))

  abbrev pub text_or_empty : Option Text → Text
  text_or_empty none = []
  text_or_empty (some t) = t

  abbrev pub connected_as :
      Session World → Result PgError (Unit {0}) × World → Outcome Value × Session World
  connected_as s (ok _, w) = (done greeting, record s { world = w; connected = true })
  connected_as s (err e, w) =
      (failure (client_failure unauthorized (pg_message e)), record s { world = w })

  unfoldable pub hello : Value → Act pg config Value
  unfolding text_field
  hello extra s =
      let user = text_or_empty (text_field extra (codes "principal")) in
      let password = text_or_empty (text_field extra (codes "credentials")) in
      let given : Option Text = if list_eq password [] then none else some password in
      connected_as s (connect config user given s.world)

  -- `ROLLBACK`, whose answer is not looked at.
  abbrev pub rolled_back : Session World → Session World
  rolled_back s =
      if s.connected then record s { world = (batch (codes "ROLLBACK") s.world).1 } else s

  unfoldable pub reset : Act pg config Value
  reset s =
      let s1 = record s { pending = []; cursor = 0 } in
      let s2 : Session World = if s.in_tx then record (rolled_back s1) { in_tx = false } else s1 in
      (done (Value.dict Value.end), record s2 { state = ready })

  abbrev pub role : Text → Value
  role name = map_of (
      Value.entry (codes "addresses")
        (Value.list (Value.cons (Value.string config.advertised) Value.nil))
        (Value.entry (codes "role") (Value.string name) Value.end))

  abbrev pub routing_table : Session World → Value
  routing_table s =
      let servers =
        Value.cons (role (codes "WRITE"))
          (Value.cons (role (codes "READ")) (Value.cons (role (codes "ROUTE")) Value.nil)) in
      map_of (
        Value.entry (codes "rt")
          (map_of (
            Value.entry (codes "ttl") (Value.int (pos 300)) (
              Value.entry (codes "db") (Value.string s.graph)
                (Value.entry (codes "servers") (Value.list servers) Value.end))))
          Value.end)

  -- The counters of the write that just ran, or none if the connection cannot tell.
  unfoldable pub write_stats : Session World → Option Value × Session World
  unfolding to_bolt
  write_stats s =
      let (answer, w) = stats s.world in
      let counters : Option Value = elim answer [
        | err e ↦ none
        | ok raw ↦ elim (parse raw) [ none ↦ none | some j ↦ some (to_bolt j) ]
      ] in
      if s.connected then (counters, record s { world = w }) else (none, s)

  -- The summary of a result that has been streamed to its end.
  unfoldable pub summary : Session World → Value × Session World
  unfolding write_stats
  summary s =
      let asked : Option Value × Session World = if s.writes then write_stats s else (none, s) in
      let stats_entry : Entries → Entries =
        λ rest. elim asked.0 [ none ↦ rest | some v ↦ Value.entry (codes "stats") v rest ] in
      let mark : Entries =
        if s.in_tx
        then Value.end
        else Value.entry (codes "bookmark") (Value.string (codes "ontological:0")) Value.end in
      let kind = if s.writes then codes "w" else codes "r" in
      (
        success (
            map_of (
              Value.entry (codes "t_last") (Value.int (pos 0)) (
                Value.entry (codes "type") (Value.string kind)
                  (stats_entry (Value.entry (codes "db") (Value.string s.graph) mark))))),
        asked.1,
      )

  abbrev pub more_to_come : Value
  more_to_come = success (
      map_of (
        Value.entry (codes "t_last") (Value.int (pos 0))
          (Value.entry (codes "has_more") (Value.bool true) Value.end)))

  unfoldable pub no_result : Value
  unfolding into_message
  no_result =
      into_message (client_failure invalid_request (codes "no result is open on this connection"))

  -- The records taken, and the session with the cursor behind them.
  unfoldable pub pull_taken : ℕ → Bool → Session World → List Value × Session World
  unfolding summary
  pull_taken n deliver s =
      let sent : List Value =
        if deliver then map record_message (take n (drop s.cursor s.pending)) else [] in
      let s1 = record s { cursor = s.cursor + n } in
      let closed = summary (record s1 { state = ready; pending = []; cursor = 0 }) in
      if ltb s1.cursor (length s.pending)
      then (sent ++ more_to_come ∷ [], s1)
      else (sent ++ closed.0 ∷ [], closed.1)

  unfoldable pub pull : Value → Bool → Session World → List Value × Session World
  unfolding pull_taken no_result
  pull extra deliver s =
      if is_streaming s.state
      then pull_taken (wanted (want extra) (length s.pending - s.cursor)) deliver s
      else (no_result ∷ [], record s { state = failed })

  -- The message that answers an action, and the state after it.
  unfoldable pub answered : Outcome Value × Session World → Reply × Session World
  unfolding into_message
  answered (done meta, s) = (wrote (success meta ∷ []), s)
  answered (failure f, s) = (wrote (into_message f ∷ []), record s { state = failed })
  answered (panic, s) = (crashed, s)

  abbrev pub pulled : List Value × Session World → Reply × Session World
  pulled (out, s) = (wrote out, s)

  abbrev pub unsupported_message : ℕ → Failure
  unsupported_message sig =
      client_failure invalid_request
        (codes "unsupported Bolt message 0x" ++ hex_digit (sig / 16) ∷ hex_digit (sig % 16) ∷ [])

  unfoldable pub dispatch : ℕ → Values → Session World → Reply × Session World
  unfolding hello run_query pull begin end_tx reset answered last_field
  dispatch sig fields s =
      if sig == hello_sig
      then answered (hello (last_field fields) s)
      else if sig == run_sig
      then answered (run_query pg config fields s)
      else if sig == pull_sig
      then pulled (pull (last_field fields) true s)
      else if sig == discard_sig
      then pulled (pull (last_field fields) false s)
      else if sig == begin_sig
      then answered (begin pg config (last_field fields) s)
      else if sig == commit_sig
      then answered (end_tx pg config (codes "COMMIT") s)
      else if sig == rollback_sig
      then answered (end_tx pg config (codes "ROLLBACK") s)
      else if sig == reset_sig
      then answered (reset s)
      else if sig == route_sig
      then answered (done (routing_table s), s)
      else answered (failure (unsupported_message sig), s)

  -- One round of the loop in `run`.
  unfoldable pub receive : Value → Session World → Reply × Session World
  unfolding dispatch
  receive (Value.structure sig fields) s =
      if sig == goodbye_sig
      then (goodbye, s)
      else if is_failed s.state && not (sig == reset_sig)
      then (wrote (ignored ∷ []), s)
      else dispatch sig fields s
  receive other s = (not_a_message, s)

  -- The rest of the conversation, if the connection goes on.
  unfoldable pub proceed :
      (Session World → List Value × Session World)
      → Reply × Session World
      → List Value × Session World
  proceed rest (wrote out, s) = let (more, s') = rest s in (out ++ more, s')
  proceed rest (goodbye, s) = ([], s)
  proceed rest (not_a_message, s) = ([], s)
  proceed rest (crashed, s) = ([], s)

  -- The messages that a client sends one after the other, and all that is written to it. What
  -- `read_message` fails at ends the list.
  unfoldable pub run : List Value → Session World → List Value × Session World
  unfolding receive proceed
  run [] s = ([], s)
  run (m ∷ ms) s = proceed (run ms) (receive m s)

  -- The session that `serve` starts with.
  abbrev pub start : World → Session World
  start w = record {
    world = w;
    connected = false;
    state = ready;
    graph = config.default_graph;
    in_tx = false;
    pending = [];
    fields = [];
    cursor = 0;
    writes = false;
    tx_meta = [];
  }
