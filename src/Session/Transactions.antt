-- ===== src/Session/Transactions.antt =====
-- The transactions of bolt/src/session.rs: what the session believes and what the server has open.
use ontological_db.Base.{
  ◌≡◌, refl, sym, ◌∙◌, Bool, true, false, List, [], ◌∷◌, Option, if◌then◌else◌,
}
use ontological_db.Base.Outcome.{Result, ok, err}
use ontological_db.Text.Strings.{codes}
use ontological_db.Session.Settings.{Text}
use ontological_db.Session.Postgres.{Config, PgError, Postgres}
use ontological_db.Session.State.{
  client_failure, Session, Outcome, done, failure, panic, Exec, continue,
}
use ontological_db.Session.Query.{unauthorized, ask, asked, apply_settings}

module _ (pg : Postgres) where
  open pg use {World, connect, batch, set_config, check, columns, cypher, stats}

  -- What the documentation of PostgreSQL says of transactions. A COMMIT that fails ends the transaction
  -- too, a ROLLBACK always does, and so does the end of the connection. No other statement opens or ends
  -- one.
  pub record Transactional : Type 0 where
    pub is_open : World → Bool
    pub connect_fresh :
        (c : Config) (u : Text) (p : Option Text) (w : World)
        → (connect c u p w).0 ≡ ok tt
        → is_open (connect c u p w).1 ≡ false
    pub connect_refused :
        (c : Config) (u : Text) (p : Option Text) (w : World) (e : PgError)
        → (connect c u p w).0 ≡ err e
        → is_open (connect c u p w).1 ≡ is_open w
    pub begin_refused :
        (w : World) (e : PgError)
        → (batch (codes "BEGIN") w).0 ≡ err e
        → is_open (batch (codes "BEGIN") w).1 ≡ is_open w
    pub commit_closes : (w : World) → is_open (batch (codes "COMMIT") w).1 ≡ false
    pub rollback_closes : (w : World) → is_open (batch (codes "ROLLBACK") w).1 ≡ false
    pub set_config_keeps : (k v : Text) (w : World) → is_open (set_config k v w).1 ≡ is_open w
    pub check_keeps : (q : Text) (w : World) → is_open (check q w).1 ≡ is_open w
    pub columns_keeps : (q : Text) (w : World) → is_open (columns q w).1 ≡ is_open w
    pub cypher_keeps : (g q p : Text) (w : World) → is_open (cypher g q p w).1 ≡ is_open w
    pub stats_keeps : (w : World) → is_open (stats w).1 ≡ is_open w

-- The outcome is no panic.
abbrev pub Answers : {A : Type 0} → Outcome A → Type 0
Answers (done a) = Unit
Answers (failure f) = Unit
Answers panic = ⊥

module _ (pg : Postgres) (config : Config) (laws : Transactional pg) where
  open pg use {World, connect, batch, set_config, check, columns, cypher, stats}
  open laws use {
    is_open, connect_fresh, connect_refused, begin_refused, commit_closes, rollback_closes,
    set_config_keeps, check_keeps, columns_keeps, cypher_keeps, stats_keeps,
  }

  -- A transaction that is open on the server is one that the session knows of.
  pub record Owned (s : Session World) : Type 0 where
    pub known : is_open s.world ≡ true → s.in_tx ≡ true
    pub reachable : is_open s.world ≡ true → s.connected ≡ true

  -- What leaves transactions as they are.
  pub record Quiet {A : Type 0} (s : Session World) (x : Outcome A × Session World) : Type 0 where
    pub answers : Answers x.0
    pub same_open : is_open x.1.world ≡ is_open s.world
    pub same_tx : x.1.in_tx ≡ s.in_tx
    pub same_connected : x.1.connected ≡ s.connected

  pub Quiet-Owned :
      {A : Type 0} {s : Session World} {x : Outcome A × Session World}
      → Quiet s x
      → Owned s
      → Owned x.1
  Quiet-Owned q o = record {
    known = λ h. q.same_tx ∙ o.known (sym q.same_open ∙ h);
    reachable = λ h. q.same_connected ∙ o.reachable (sym q.same_open ∙ h);
  }

  pub Quiet-continue :
      {A B : Type 0} (s : Session World) (x : Outcome A × Session World)
      (f : A → Exec (Session World) B)
      → Quiet s x
      → ((a : A) (s' : Session World) → Quiet s' (f a s'))
      → Quiet s (continue x.0 f x.1)
  Quiet-continue s (done a, s') f q k =
      let r = k a s' in
      record {
        answers = r.answers;
        same_open = r.same_open ∙ q.same_open;
        same_tx = r.same_tx ∙ q.same_tx;
        same_connected = r.same_connected ∙ q.same_connected;
      }
  Quiet-continue s (failure e, s') f q k = record {
    answers = tt;
    same_open = q.same_open;
    same_tx = q.same_tx;
    same_connected = q.same_connected;
  }
  Quiet-continue s (panic, s') f q k = absurd q.answers

  pub Quiet-done : {A : Type 0} (a : A) (s : Session World) → Quiet s (done a, s)
  Quiet-done a s = record { answers = tt; same_open = refl; same_tx = refl; same_connected = refl }

  asked-Quiet :
      {A : Type 0} (s : Session World) (x : Result PgError A × World)
      → is_open x.1 ≡ is_open s.world
      → Quiet s (asked pg config s x)
  unfolding asked
  asked-Quiet s (ok a, w) e = record {
    answers = tt;
    same_open = e;
    same_tx = refl;
    same_connected = refl;
  }
  asked-Quiet s (err a, w) e = record {
    answers = tt;
    same_open = e;
    same_tx = refl;
    same_connected = refl;
  }

  pub ask-Quiet :
      {A : Type 0} (call : World → Result PgError A × World)
      → ((w : World) → is_open (call w).1 ≡ is_open w)
      → (s : Session World) → Quiet s (ask pg config call s)
  unfolding ask
  ask-Quiet call keeps s =
      elim s.connected
        as (λ b. Quiet s (
          if b
          then asked pg config s (call s.world)
          else (failure (client_failure unauthorized (codes "no HELLO on this connection")), s))) [
            | true ↦ asked-Quiet s (call s.world) (keeps s.world)
            | false ↦ record {
              answers = tt;
              same_open = refl;
              same_tx = refl;
              same_connected = refl;
            }
          ]

  pub apply_settings-Quiet :
      (settings : List (Text × Text)) (s : Session World)
      → Quiet s (apply_settings pg config settings s)
  unfolding apply_settings
  apply_settings-Quiet [] s = Quiet-done tt s
  apply_settings-Quiet ((k, v) ∷ rest) s =
      Quiet-continue s (ask pg config (set_config k v) s) _
        (ask-Quiet (set_config k v) (set_config_keeps k v) s) (λ a s'. apply_settings-Quiet rest s')
