-- ===== src/Session/Queries.antt =====
-- RUN, PULL and DISCARD of bolt/src/session.rs leave no transaction behind.
use ontological_db.Session.TxMessages.{select_graph-Owned}
use ontological_db.Base.{
  ◌+◌, ◌-◌, arith, inl, inr, Bool, true, false, Bool-cases, [], Option, none, some, if◌then◌else◌,
  ltb, length,
}
use ontological_db.PackStream.Value.{Value, Values}
use ontological_db.PackStream.Value
use ontological_db.Session.Settings.{Text, tx_settings}
use ontological_db.Session.Json.{Json}
use ontological_db.Session.Values.{to_json}
use ontological_db.Session.Postgres.{Config, Postgres}
use ontological_db.Session.State.{Session, ready, ◌>>=◌, ◌>>◌, modify, pure}
use ontological_db.Session.Query.{
  opened, required, open_result, prefixed, Act, ask, select_graph, is_write, verdict, execute,
  run_query, run_rows, plan_prefix, query_text, field_at,
}
use ontological_db.Session.Prefix.{split_plan_prefix}
use ontological_db.Session.Serve.{
  pull, write_stats, summary, pull_taken, wanted, want, is_streaming,
}
use ontological_db.Session.Transactions.{
  Quiet-continue, Transactional, Owned, Quiet, Quiet-Owned, ask-Quiet,
}
use ontological_db.Session.Ownership.{continue-Owned, execute-Owned}

module _ (pg : Postgres) (config : Config) (laws : Transactional pg) where
  open pg use {World, print, connect, batch, check, columns, cypher, stats}
  open laws use {
    is_open, connect_fresh, connect_refused, commit_closes, rollback_closes, check_keeps,
    columns_keeps, cypher_keeps, stats_keeps,
  }

  verdict-Quiet :
      (answer : Json) (s : Session World) → Quiet pg config laws s (verdict pg config answer s)
  unfolding verdict
  verdict-Quiet answer s = ground arith

  is_write-Quiet :
      (query : Text) (s : Session World) → Quiet pg config laws s (is_write pg config query s)
  unfolding is_write
  is_write-Quiet query s =
      Quiet-continue pg config laws s (ask pg config (check query) s) _
        (ask-Quiet pg config laws (check query) (check_keeps query) s)
        (λ raw s'. verdict-Quiet _ s')

  run_rows-Owned :
      (query : Text) (params extra : Value) (s : Session World)
      → Owned pg config laws s
      → Owned pg config laws (run_rows pg config query params extra s).1
  unfolding run_rows
  run_rows-Owned query params extra s o =
      continue-Owned pg config laws (ask pg config (columns query) s) _
        (Quiet-Owned pg config laws
          (ask-Quiet pg config laws (columns query) (columns_keeps query) s) o)
        (λ cols s1 o1.
          let call = cypher s1.graph query (print (to_json params)) in
          continue-Owned pg config laws
            (execute pg config (if s1.in_tx then [] else tx_settings print extra)
              (ask pg config call) s1)
            _
            (execute-Owned pg config laws (if s1.in_tx then [] else tx_settings print extra)
              (ask pg config call)
              (ask-Quiet pg config laws call (cypher_keeps s1.graph query (print (to_json params))))
              s1 o1)
            (λ rows s2 o2. record { known = o2.known; reachable = o2.reachable }))

  required-Owned :
      (q : Option Text) (s : Session World)
      → Owned pg config laws s
      → Owned pg config laws (required pg config q s).1
  required-Owned none s o = o
  required-Owned (some q) s o = o

  prefixed-Owned :
      (p : Option (Text × Bool)) (s : Session World)
      → Owned pg config laws s
      → Owned pg config laws (prefixed pg config p s).1
  prefixed-Owned none s o = o
  prefixed-Owned (some p) s o = o

  planned-Owned :
      (plan_only : Bool) (query : Text) (params extra : Value) (s : Session World)
      → Owned pg config laws s
      → Owned pg config laws
          ((if plan_only
              then (modify (open_result pg config [] []) >> pure (opened []))
              else run_rows pg config query params extra)
            s).1
  planned-Owned true query params extra s o = record { known = o.known; reachable = o.reachable }
  planned-Owned false query params extra s o = run_rows-Owned query params extra s o

  -- An action that leaves no transaction behind.
  pub record Keeps {A : Type 0} (m : Act pg config A) : Type 0 where
    pub at : (s : Session World) → Owned pg config laws s → Owned pg config laws (m s).1

  Keeps-bind :
      {A B : Type 0} (m : Act pg config A) (f : A → Act pg config B)
      → Keeps m
      → ((a : A) → Keeps (f a))
      → Keeps (m >>= f)
  Keeps-bind m f k l = record {
    at = λ s o. continue-Owned pg config laws (m s) f (k.at s o) (λ a s' o'. (l a).at s' o');
  }

  pub run_query-Keeps : (fields : Values) → Keeps (run_query pg config fields)
  unfolding run_query query_text plan_prefix
  run_query-Keeps fields =
      Keeps-bind (query_text pg config fields) _
        (record { at = required-Owned (Value.as_str (field_at 0 fields)) })
        (λ query.
          Keeps-bind (select_graph pg config (field_at 2 fields)) _
            (record { at = select_graph-Owned pg config laws (field_at 2 fields) })
            (λ u.
              Keeps-bind (plan_prefix pg config query) _
                (record { at = prefixed-Owned (split_plan_prefix query) })
                (λ p.
                  Keeps-bind (is_write pg config p.0)
                    (λ write.
                      modify (λ s. record s { writes = write })
                      >> (if p.1
                          then (modify (open_result pg config [] []) >> pure (opened []))
                          else run_rows pg config query (field_at 1 fields) (field_at 2 fields)))
                    (record { at = λ s o. Quiet-Owned pg config laws (is_write-Quiet p.0 s) o })
                    (λ write. record {
                      at = λ s o.
                          planned-Owned p.1 query (field_at 1 fields) (field_at 2 fields)
                            (record s { writes = write })
                            (record { known = o.known; reachable = o.reachable });
                    }))))

  write_stats-Owned :
      (s : Session World)
      → Owned pg config laws s
      → Owned pg config laws (write_stats pg config s).1
  unfolding write_stats
  write_stats-Owned s o = ground (arith, stats_keeps s.world, o.known, o.reachable)

  summary-Owned :
      (s : Session World) → Owned pg config laws s → Owned pg config laws (summary pg config s).1
  unfolding summary
  summary-Owned s o =
      elim s.writes
        as (λ b. Owned pg config laws (
          let asked : Option Value × Session World =
            if b then write_stats pg config s else (none, s) in
          asked.1)) [ true ↦ write_stats-Owned s o | false ↦ o ]

  pub pull-Owned :
      (extra : Value) (deliver : Bool) (s : Session World)
      → Owned pg config laws s
      → Owned pg config laws (pull pg config extra deliver s).1
  unfolding pull pull_taken
  pull-Owned extra deliver s o =
      let n = wanted (want extra) (length s.pending - s.cursor) in
      elim (Bool-cases (is_streaming s.state)) [
        | inr e ↦ rw e (record { known = o.known; reachable = o.reachable })
        | inl e ↦ elim (Bool-cases (ltb (s.cursor + n) (length s.pending))) [
          | inl k ↦ rw (e, k) (record { known = o.known; reachable = o.reachable })
          | inr k ↦
              rw (e, k)
                (summary-Owned (record s { state = ready; pending = []; cursor = 0 })
                  (record { known = o.known; reachable = o.reachable }))
        ]
      ]
