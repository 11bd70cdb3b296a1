-- ===== src/Session/Ownership.antt =====
-- Every operation of bolt/src/session.rs leaves no transaction open on the server that the session
-- does not know of.
use ontological_db.Base.{
  ◌≡◌, refl, ap, ◌∙◌, Bool, true, false, List, [], ◌∷◌, Option, if◌then◌else◌,
}
use ontological_db.Base.Outcome.{Result, ok, err}
use ontological_db.Text.Strings.{codes}
use ontological_db.Session.Settings.{Text}
use ontological_db.Session.Postgres.{Config, PgError, Postgres}
use ontological_db.Session.State.{
  Session, Outcome, done, failure, panic, Exec, Failure, continue, ◌>>=◌, ◌>>◌, handle, on_failure,
  client_failure, pure,
}
use ontological_db.Session.Query.{Act, ask, asked, sql, apply_settings, execute, unauthorized}
use ontological_db.Session.Transactions.{
  Transactional, Owned, Quiet, Quiet-Owned, apply_settings-Quiet,
}

module _ (pg : Postgres) (config : Config) (laws : Transactional pg) where
  open pg use {World, print, connect, batch, set_config, check, columns, cypher, stats}
  open laws use {
    is_open, begin_refused, commit_closes, rollback_closes, check_keeps, columns_keeps,
    cypher_keeps,
  }

  pub Closed-Owned : {s : Session World} → is_open s.world ≡ false → Owned pg config laws s
  Closed-Owned e = record { known = λ h. cc; reachable = λ h. cc }

  pub continue-Owned :
      {A B : Type 0} (x : Outcome A × Session World) (f : A → Exec (Session World) B)
      → Owned pg config laws x.1
      → ((a : A) (s : Session World) → Owned pg config laws s → Owned pg config laws (f a s).1)
      → Owned pg config laws (continue x.0 f x.1).1
  continue-Owned (done a, s) f o k = k a s o
  continue-Owned (failure e, s) f o k = o
  continue-Owned (panic, s) f o k = o

  -- What comes of BEGIN.
  pub data Began (s : Session World) : Outcome (Unit {0}) × Session World → Type 0 where
    refused :
        {f : Failure} {s' : Session World}
        → Quiet pg config laws {A = Unit {0}} s (failure f, s')
        → Began s (failure f, s')
    opened_on : {u : Unit {0}} {s' : Session World} → s'.connected ≡ true → Began s (done u, s')

  asked-Began :
      (s : Session World) (x : Result PgError (Unit {0}) × World)
      → s.connected ≡ true
      → ((e : PgError) → x.0 ≡ err e → is_open x.1 ≡ is_open s.world)
      → Began s (asked pg config s x)
  unfolding asked
  asked-Began s (ok u, w) c k = opened_on c
  asked-Began s (err e, w) c k =
      refused record { answers = tt; same_open = k e refl; same_tx = refl; same_connected = refl }

  pub sql-Began : (s : Session World) → Began s (sql pg config (codes "BEGIN") s)
  unfolding sql ask
  sql-Began s = split s.connected refl
    where
      split :
          (b : Bool)
          → s.connected ≡ b
          → Began s (
              if b
              then asked pg config s (batch (codes "BEGIN") s.world)
              else (failure (client_failure unauthorized (codes "no HELLO on this connection")), s))
      split true e = asked-Began s (batch (codes "BEGIN") s.world) e (begin_refused s.world)
      split false e =
          refused record { answers = tt; same_open = refl; same_tx = refl; same_connected = refl }

  asked_world :
      {A : Type 0} (s : Session World) (x : Result PgError A × World)
      → (asked pg config s x).1.world ≡ x.1
  unfolding asked
  asked_world s (ok a, w) = refl
  asked_world s (err e, w) = refl

  -- A statement that ends every transaction.
  pub closing :
      (stmt : Text) (s : Session World)
      → ((w : World) → is_open (batch stmt w).1 ≡ false)
      → s.connected ≡ true
      → is_open (sql pg config stmt s).1.world ≡ false
  unfolding sql ask
  closing stmt s law c = split s.connected c
    where
      split :
          (b : Bool)
          → b ≡ true
          → is_open
              (if b then asked pg config s (batch stmt s.world) else (
                failure (client_failure unauthorized (codes "no HELLO on this connection")),
                s,
              )).1.world
            ≡ false
      split true e = ap is_open (asked_world s (batch stmt s.world)) ∙ law s.world
      split false e = cc

  handled :
      {A : Type 0} (x : Outcome A × Session World) (s : Session World)
      → Quiet pg config laws s x
      → s.connected ≡ true
      → (f : A → Exec (Session World) (List (Option Text)))
      → ((a : A) (s' : Session World) → s'.connected ≡ true → Owned pg config laws (f a s').1)
      → let y = handle x.0 (sql pg config (codes "ROLLBACK")) x.1 in
        Owned pg config laws (continue y.0 f y.1).1
  handled (done a, s') s q c f k = k a s' (q.same_connected ∙ c)
  handled (failure e, s') s q c f k =
      Closed-Owned (closing (codes "ROLLBACK") s' rollback_closes (q.same_connected ∙ c))
  handled (panic, s') s q c f k = absurd q.answers

  pub execute-Owned :
      (own : List (Text × Text)) (run : Act pg config (List (Option Text)))
      → ((s : Session World) → Quiet pg config laws s (run s))
      → (s : Session World) → Owned pg config laws s
      → Owned pg config laws (execute pg config own run s).1
  unfolding execute
  execute-Owned [] run quiet s o = Quiet-Owned pg config laws (quiet s) o
  execute-Owned (p ∷ own) run quiet s o = after (sql pg config (codes "BEGIN") s) (sql-Began s)
    where
      commit : List (Option Text) → Act pg config (List (Option Text))
      commit rows = sql pg config (codes "COMMIT") >> pure rows

      inner : Act pg config (List (Option Text))
      inner = on_failure run (sql pg config (codes "ROLLBACK")) >>= commit

      committed :
          (rows : List (Option Text)) (s' : Session World)
          → s'.connected ≡ true
          → Owned pg config laws (commit rows s').1
      committed rows s' c =
          continue-Owned (sql pg config (codes "COMMIT") s') (λ u. pure rows)
            (Closed-Owned (closing (codes "COMMIT") s' commit_closes c)) (λ u s'' h. h)

      after :
          (x : Outcome (Unit {0}) × Session World)
          → Began s x
          → Owned pg config laws
              (continue x.0
                (λ u.
                  on_failure (apply_settings pg config (p ∷ own)) (sql pg config (codes "ROLLBACK"))
                  >> inner)
                x.1).1
      after _ (refused q) = Quiet-Owned pg config laws q o
      after _ (opened_on {s' = s'} c) =
          handled (apply_settings pg config (p ∷ own) s') s'
            (apply_settings-Quiet pg config laws (p ∷ own) s') c (λ u. inner)
            (λ u s'' c'. handled (run s'') s'' (quiet s'') c' commit committed)
