-- ===== src/Session/TxMessages.antt =====
-- BEGIN, COMMIT, ROLLBACK, HELLO and RESET of bolt/src/session.rs leave no transaction behind.
use ontological_db.Base.{
  ◌≡◌, refl, sym, ◌∙◌, Bool, true, false, List, [], none, some, if◌then◌else◌,
}
use ontological_db.Base.Outcome.{Result, ok, err}
use ontological_db.Text.Strings.{codes}
use ontological_db.PackStream.Value.{Value, Values}
use ontological_db.PackStream.Value
use ontological_db.Session.Settings.{Text, tx_settings}
use ontological_db.Session.Postgres.{Config, PgError, Postgres}
use ontological_db.Session.State.{
  client_failure, map_of, Session, ready, Outcome, failure, continue, ◌>>◌, modify, pure,
}
use ontological_db.Session.Query.{
  unauthorized, bookmark, asked, Act, ask, sql, apply_settings, select_graph, named_graph, begin,
  end_tx,
}
use ontological_db.Session.Serve.{hello, reset, rolled_back, connected_as}
use ontological_db.Session.Transactions.{Transactional, Owned, Quiet-Owned, apply_settings-Quiet}
use ontological_db.Session.Ownership.{
  Closed-Owned, continue-Owned, Began, sql-Began, refused, opened_on,
}

module _ (pg : Postgres) (config : Config) (laws : Transactional pg) where
  open pg use {World, print, connect, batch, check, columns, cypher, stats}
  open laws use {
    is_open, connect_fresh, connect_refused, commit_closes, rollback_closes, check_keeps,
    columns_keeps, cypher_keeps, stats_keeps,
  }

  pub select_graph-Owned :
      (extra : Value) (s : Session World)
      → Owned pg config laws s
      → Owned pg config laws (select_graph pg config extra s).1
  unfolding select_graph
  select_graph-Owned extra s o =
      elim (named_graph pg config extra)
        as (λ g. Owned pg config laws (elim g [
          | some db ↦ record s { graph = db }
          | none ↦ if s.in_tx then s else record s { graph = config.default_graph }
        ])) [
          | some db ↦ record { known = o.known; reachable = o.reachable }
          | none ↦
              elim s.in_tx
                as (λ b.
                  Owned pg config laws
                    (if b then s else record s { graph = config.default_graph })) [
                      | true ↦ o
                      | false ↦ record { known = o.known; reachable = o.reachable }
                    ]
        ]

  pub begin-Owned :
      (extra : Value) (s : Session World)
      → Owned pg config laws s
      → Owned pg config laws (begin pg config extra s).1
  unfolding begin
  begin-Owned extra s o =
      continue-Owned pg config laws (select_graph pg config extra s)
        (λ u. sql pg config (codes "BEGIN") >> rest) (select_graph-Owned extra s o)
        (λ u s1 o1. after s1 o1 (sql pg config (codes "BEGIN") s1) (sql-Began pg config laws s1))
    where
      settings : List (Text × Text)
      settings = tx_settings print extra

      rest : Act pg config Value
      rest =
          modify (λ s. record s { in_tx = true; tx_meta = settings })
          >> (apply_settings pg config settings >> pure (Value.dict Value.end))

      after :
          (s1 : Session World)
          → Owned pg config laws s1
          → (x : Outcome (Unit {0}) × Session World) → Began pg config laws s1 x
          → Owned pg config laws (continue x.0 (λ u. rest) x.1).1
      after s1 o1 _ (refused q) = Quiet-Owned pg config laws q o1
      after s1 o1 _ (opened_on {s' = s'} c) =
          let s2 = record s' { in_tx = true; tx_meta = settings } in
          continue-Owned pg config laws (apply_settings pg config settings s2)
            (λ u. pure (Value.dict Value.end))
            (Quiet-Owned pg config laws (apply_settings-Quiet pg config laws settings s2)
              record { known = λ h. refl; reachable = λ h. c })
            (λ u s3 o3. o3)

  -- COMMIT or ROLLBACK.
  pub end_tx-Owned :
      (verb : Text) (s : Session World)
      → ((w : World) → is_open (batch verb w).1 ≡ false)
      → Owned pg config laws s
      → Owned pg config laws (end_tx pg config verb s).1
  unfolding end_tx sql ask asked
  end_tx-Owned verb s law o = split s.connected refl
    where
      step : Outcome (Unit {0}) × Session World → Outcome Value × Session World
      step x =
          continue x.0
            (λ u.
              modify (λ s. record s { in_tx = false; tx_meta = [] })
              >> pure (map_of (Value.entry (codes "bookmark") (bookmark pg config) Value.end)))
            x.1

      ended :
          (x : Result PgError (Unit {0}) × World)
          → is_open x.1 ≡ false
          → Owned pg config laws (step (asked pg config s x)).1
      ended (ok u, w) e = Closed-Owned pg config laws e
      ended (err f, w) e = Closed-Owned pg config laws e

      split :
          (b : Bool)
          → s.connected ≡ b
          → Owned pg config laws
              (step (
                if b then asked pg config s (batch verb s.world) else (
                  failure (client_failure unauthorized (codes "no HELLO on this connection")),
                  s,
                ))).1
      split true e = ended (batch verb s.world) (law s.world)
      split false e = o

  pub hello-Owned :
      (extra : Value) (s : Session World)
      → Owned pg config laws s
      → Owned pg config laws (hello pg config extra s).1
  unfolding hello
  hello-Owned extra s o =
      answer (connect config _ _ s.world) (connect_fresh config _ _ s.world)
        (connect_refused config _ _ s.world)
    where
      answer :
          (x : Result PgError (Unit {0}) × World)
          → (x.0 ≡ ok tt → is_open x.1 ≡ false)
          → ((e : PgError) → x.0 ≡ err e → is_open x.1 ≡ is_open s.world)
          → Owned pg config laws (connected_as pg config s x).1
      answer (ok u, w) fresh same = Closed-Owned pg config laws (fresh refl)
      answer (err e, w) fresh same =
          let k = same e refl in
          record { known = λ h. o.known (sym k ∙ h); reachable = λ h. o.reachable (sym k ∙ h) }

  rolled_back-Owned :
      (s : Session World)
      → Owned pg config laws s
      → Owned pg config laws (record (rolled_back pg config s) { in_tx = false })
  rolled_back-Owned s o = split s.connected refl
    where
      split :
          (b : Bool)
          → s.connected ≡ b
          → Owned pg config laws
              (record (if b then record s { world = (batch (codes "ROLLBACK") s.world).1 } else s) {
                in_tx = false;
              })
      split true e = Closed-Owned pg config laws (rollback_closes s.world)
      split false e = record { known = λ h. cc (o.reachable h, e); reachable = o.reachable }

  pub reset-Owned :
      (s : Session World) → Owned pg config laws s → Owned pg config laws (reset pg config s).1
  unfolding reset
  reset-Owned s o = split s.in_tx refl
    where
      cleared : Session World
      cleared = record s { pending = []; cursor = 0 }

      split :
          (b : Bool)
          → s.in_tx ≡ b
          → Owned pg config laws
              (record (if b
                then record (rolled_back pg config cleared) { in_tx = false }
                else cleared) { state = ready })
      split true e =
          let r = rolled_back-Owned cleared (record { known = o.known; reachable = o.reachable }) in
          record { known = r.known; reachable = r.reachable }
      split false e = record { known = o.known; reachable = o.reachable }
