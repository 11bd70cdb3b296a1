-- ===== src/Session/Checks.antt =====
-- Runs of bolt/src/session.rs, and its theorems at concrete inputs.
use ontological_db.Base.{
  ℕ, ◌≡◌, refl, Bool, true, false, if◌then◌else◌, List, [], ◌∷◌, ◌++◌, map, replicate, Option, none,
  some, list_eq, length, arith,
}
use ontological_db.Base.Outcome.{Result, ok, err}
use ontological_db.Base.Int.{pos}
use ontological_db.Text.Strings.{is_continuation, trim_start, codes}
use ontological_db.PackStream.Value.{text_lt, Value}
use ontological_db.PackStream.Value
use ontological_db.Session.Json.{Json}
use ontological_db.Session.Json
use ontological_db.Session.Settings.{Text}
use ontological_db.Session.Postgres.{Config, PgError, Postgres}
use ontological_db.Base.{◌≤◌, ◌<◌, ◌↔◌}
use ontological_db.Session.Values.{to_json, to_bolt}
use ontological_db.Session.Prefix.{split_plan_prefix}
use ontological_db.Session.Plans.{Split, split_plan_prefix-ascii}
use ontological_db.Session.Crashes.{receive_crashes}
use ontological_db.Session.RoundTrip.{to_bolt-to_json}
use ontological_db.Session.Serve.{
  want, run, receive, start, hello_sig, begin_sig, run_sig, commit_sig, reset_sig, wrote, crashed,
  success, ignored,
}
use ontological_db.Session.Handshake.{
  magic, handshake, Proposal, proposals, AnyCovers, handshake_iff,
}
use ontological_db.Session.Streaming.{pull_message, payloads, remaining, run-pulls}
use ontological_db.Session.Progress.{batch_of, message, pulls_deliver, run_failed}
use ontological_db.Session.Transactions.{Transactional, Owned}
use ontological_db.Session.Isolation.{run-Owned, reset_closes}
use ontological_db.Session.State.{Session, ready, streaming, failed}

abbrev config : Config
config = record {
  pg_host = codes "localhost";
  pg_port = 5432;
  pg_database = codes "og";
  default_graph = codes "default";
  advertised = codes "127.0.0.1:7687";
}

-- `{"n": 1}` for a text of one character, and the verdict on a read for any other.
abbrev parsed : Text → Option Json
parsed [] = none
parsed (b ∷ []) = some (Json.object (Json.member (codes "n") (Json.integer (pos b)) Json.end))
parsed (b ∷ c ∷ bs) = some (
    Json.object (
      Json.member (codes "ok") (Json.bool true)
        (Json.member (codes "write") (Json.bool false) Json.end)))

abbrev refusal : PgError
refusal = record { db_message = some (codes "permission denied"); text = [] }

-- A server whose world says whether a transaction is open, and whose queries answer two rows.
abbrev server : Postgres
server = record {
  World = Bool;
  process_id = codes "1";
  print = λ j. codes "{}";
  parse = parsed;
  connect = λ c u p w. if list_eq u [] then (err refusal, w) else (ok tt, false);
  batch = λ t w.
      if list_eq t (codes "BEGIN")
      then (ok tt, true)
      else if list_eq t (codes "COMMIT")
      then (ok tt, false)
      else if list_eq t (codes "ROLLBACK")
      then (ok tt, false)
      else (ok tt, w);
  set_config = λ k v w. (if list_eq v [] then err refusal else ok tt, w);
  check = λ q w. (ok (codes "read"), w);
  columns = λ q w. (ok (codes "n" ∷ []), w);
  cypher = λ g q p w. (ok (some (codes "1") ∷ some (codes "2") ∷ []), w);
  stats = λ w. (ok (codes "stats"), w);
}

unfoldable server-Transactional : Transactional server
unfolding list_eq
server-Transactional = record {
  is_open = λ w. w;
  connect_fresh = λ c u p w e. fresh (list_eq u []) w e;
  connect_refused = λ c u p w x e. refused (list_eq u []) w x e;
  begin_refused = λ w x e. cc e;
  commit_closes = λ w. refl;
  rollback_closes = λ w. refl;
  set_config_keeps = λ k v w. refl;
  check_keeps = λ q w. refl;
  columns_keeps = λ q w. refl;
  cypher_keeps = λ g q p w. refl;
  stats_keeps = λ w. refl;
}
  where
    answer : Bool → Bool → Result PgError (Unit {0}) × Bool
    answer b w = if b then (err refusal, w) else (ok tt, false)

    fresh : (b w : Bool) → (answer b w).0 ≡ ok tt → (answer b w).1 ≡ false
    fresh true w e = absurd (cc e)
    fresh false w e = refl

    refused : (b w : Bool) (x : PgError) → (answer b w).0 ≡ err x → (answer b w).1 ≡ w
    refused true w x e = refl
    refused false w x e = absurd (cc e)

-- HELLO, BEGIN, a query and one record of its result.
abbrev conversation : List Value
conversation =
    Value.structure hello_sig (
      Value.cons
        (Value.dict (Value.entry (codes "principal") (Value.string (codes "og")) Value.end))
        Value.nil)
    ∷ Value.structure begin_sig (Value.cons (Value.dict Value.end) Value.nil)
    ∷ Value.structure run_sig (Value.cons (Value.string (codes "RETURN 1 AS n")) Value.nil)
    ∷ pull_message (batch_of 1)
    ∷ []

unfoldable after : Session Bool
after = (run server config conversation (start server config false)).1

conversation_runs :
    (after.world ≡ true)
    × (after.in_tx ≡ true)
    × (after.state ≡ streaming)
    × (length after.pending ≡ 2)
    × (after.cursor ≡ 1)
unfolding after run list_eq want
conversation_runs = (refl, refl, refl, refl, refl)

-- The settings of an auto-commit query that the server refuses: the transaction is rolled back.
abbrev refused_setting : List Value
refused_setting =
    Value.structure hello_sig (
      Value.cons
        (Value.dict (Value.entry (codes "principal") (Value.string (codes "og")) Value.end))
        Value.nil)
    ∷ Value.structure run_sig (
        Value.cons (Value.string (codes "RETURN 1 AS n")) (
          Value.cons Value.null (
            Value.cons
              (Value.dict (
                Value.entry (codes "tx_metadata")
                  (Value.dict (Value.entry (codes "actor") (Value.string []) Value.end)) Value.end))
              Value.nil)))
    ∷ []

refused_setting_runs :
    let s = (run server config refused_setting (start server config false)).1 in
    (s.world ≡ false) × (s.in_tx ≡ false) × (s.state ≡ failed)
unfolding run list_eq
refused_setting_runs = (refl, refl, refl)

run-Owned_example :
    Owned server config server-Transactional
      (run server config conversation (start server config false)).1
unfolding server-Transactional
run-Owned_example = run-Owned server config server-Transactional conversation false refl

reset_closes_example :
    let s = (run server config conversation (start server config false)).1 in
    let (reply, s') = receive server config (Value.structure reset_sig Value.nil) s in
    (reply ≡ wrote (success (Value.dict Value.end) ∷ []))
    × (s'.state ≡ ready)
    × (s'.pending ≡ [])
    × (s'.in_tx ≡ false)
    × (s'.world ≡ false)
unfolding server-Transactional
reset_closes_example = reset_closes server config server-Transactional conversation false refl

-- Three records of which one has been delivered.
abbrev open_session : Session Bool
open_session = record {
  world = false;
  connected = true;
  state = streaming;
  graph = codes "default";
  in_tx = false;
  pending = Value.int (pos 1) ∷ Value.int (pos 2) ∷ Value.int (pos 3) ∷ [];
  fields = codes "n" ∷ [];
  cursor = 1;
  writes = false;
  tx_meta = [];
}

run-pulls_example :
    let (out, s') =
      run server config (map pull_message (batch_of 1 ∷ Value.null ∷ [])) open_session in
    payloads out ++ remaining s' ≡ Value.int (pos 2) ∷ Value.int (pos 3) ∷ []
run-pulls_example = run-pulls server config (batch_of 1 ∷ Value.null ∷ []) open_session

pulls_deliver_example :
    (k : ℕ) × (k ≤ 3)
    × ((run server config (map pull_message (replicate k (batch_of 1))) open_session).1.state
        ≡ ready)
    × (payloads (run server config (map pull_message (replicate k (batch_of 1))) open_session).0
        ≡ Value.int (pos 2) ∷ Value.int (pos 3) ∷ [])
pulls_deliver_example = pulls_deliver server config 1 open_session (omega arith) refl

run_failed_example :
    run server config
      (map message (
        (run_sig, Value.cons (Value.string (codes "RETURN 1")) Value.nil)
        ∷ (commit_sig, Value.nil)
        ∷ []))
      (record open_session { state = failed })
    ≡ (ignored ∷ ignored ∷ [], record open_session { state = failed })
run_failed_example =
    run_failed server config
      ((run_sig, Value.cons (Value.string (codes "RETURN 1")) Value.nil)
        ∷ (commit_sig, Value.nil)
        ∷ [])
      (record open_session { state = failed }) refl
      (((λ e. cc e), (λ e. cc e)), (((λ e. cc e), (λ e. cc e)), tt))

-- 4.4 down to 4.2, and three empty proposals
abbrev offered : List Proposal
offered =
    record { reserved = 0; range = 2; minor = 4; major = 4 }
    ∷ record { reserved = 0; range = 0; minor = 0; major = 0 }
    ∷ record { reserved = 0; range = 0; minor = 0; major = 0 }
    ∷ record { reserved = 0; range = 0; minor = 0; major = 0 }
    ∷ []

handshake_iff_example :
    let (answer, goes_on) = handshake (magic ++ proposals offered) in
    ((goes_on ≡ true) ↔ AnyCovers offered)
    × (goes_on ≡ true → answer ≡ 0 ∷ 0 ∷ 4 ∷ 4 ∷ [])
    × (goes_on ≡ false → answer ≡ 0 ∷ 0 ∷ 0 ∷ 0 ∷ [])
handshake_iff_example =
    let small : (0 < 256) × (0 < 256) × (0 < 256) × (0 < 256) =
      (omega arith, omega arith, omega arith, omega arith) in
    handshake_iff offered
      ((omega arith, omega arith, omega arith, omega arith), (small, (small, (small, tt))))

split_plan_prefix-ascii_example :
    (body : Text) × (plan_only : Bool) × (split_plan_prefix (codes "explain RETURN 1")
      ≡ some (body, plan_only))
    × Split (codes "explain RETURN 1") body plan_only
split_plan_prefix-ascii_example = split_plan_prefix-ascii (codes "explain RETURN 1") (
  omega arith,
  (
    omega arith,
    (
      omega arith,
      (
        omega arith,
        (
          omega arith,
          (
            omega arith,
            (
              omega arith,
              (
                omega arith,
                (
                  omega arith,
                  (
                    omega arith,
                    (
                      omega arith,
                      (omega arith, (omega arith, (omega arith, (omega arith, (omega arith, tt))))),
                    ),
                  ),
                ),
              ),
            ),
          ),
        ),
      ),
    ),
  ),
)

explain_runs : split_plan_prefix (codes "explain RETURN 1") ≡ some (codes "RETURN 1", true)
unfolding split_plan_prefix list_eq
explain_runs = refl

-- `MATCH(한) RETURN 1`: the eighth byte is the second of the three of 한.
abbrev korean : Text
korean = codes "MATCH(" ++ 0xED ∷ 0x95 ∷ 0x9C ∷ codes ") RETURN 1"

receive_crashes_example :
    (receive server config
      (Value.structure run_sig (Value.cons (Value.string korean) Value.nil))
      (start server config false)).0
    ≡ crashed
unfolding trim_start is_continuation
receive_crashes_example =
    receive_crashes server config korean Value.nil (start server config false) refl (omega arith)
      refl

-- {"a": [1, null], "b": "x"}
abbrev parameters : Value
parameters = Value.dict (
    Value.entry (codes "a")
      (Value.list (Value.cons (Value.int (pos 1)) (Value.cons Value.null Value.nil)))
      (Value.entry (codes "b") (Value.string (codes "x")) Value.end))

to_bolt-to_json_example : to_bolt (to_json parameters) ≡ parameters
unfolding text_lt list_eq Value.get
to_bolt-to_json_example =
    to_bolt-to_json parameters ((refl, (tt, tt)), (λ d. d), ((tt, (tt, tt)), (tt, tt)))
