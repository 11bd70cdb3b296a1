-- ===== src/Session/Isolation.antt =====
-- The messages of bolt/src/session.rs, none of which leaves a transaction behind.
use ontological_db.Session.Queries.{pull-Owned, run_query-Keeps}
use ontological_db.Session.TxMessages.{end_tx-Owned, begin-Owned, reset-Owned, hello-Owned}
use ontological_db.Base.{
  ℕ, ◌≡◌, refl, inl, inr, Bool, true, false, Bool-cases, List, [], ◌∷◌, if◌then◌else◌, ◌==◌, ◌&&◌,
  not,
}
use ontological_db.Text.Strings.{codes}
use ontological_db.PackStream.Value.{Value, Values}
use ontological_db.PackStream.Value
use ontological_db.Session.Postgres.{Config, Postgres}
use ontological_db.Session.State.{Session, ready, streaming, failed, Outcome, done, failure, panic}
use ontological_db.Session.Query.{begin, end_tx, run_query, last_field}
use ontological_db.Session.Serve.{
  proceed, ignored, route_sig, rollback_sig, commit_sig, begin_sig, discard_sig, pull_sig, run_sig,
  goodbye_sig, hello_sig, success, Reply, wrote, goodbye, not_a_message, crashed, hello, reset,
  dispatch, receive, run, answered, is_failed, reset_sig, rolled_back, start,
}
use ontological_db.Session.Transactions.{Transactional, Owned}
use ontological_db.Session.Ownership.{Closed-Owned}

module _ (pg : Postgres) (config : Config) (laws : Transactional pg) where
  open pg use {World, print, connect, batch, check, columns, cypher, stats}
  open laws use {
    is_open, connect_fresh, connect_refused, commit_closes, rollback_closes, check_keeps,
    columns_keeps, cypher_keeps, stats_keeps,
  }

  answered-Owned :
      (x : Outcome Value × Session World)
      → Owned pg config laws x.1
      → Owned pg config laws (answered pg config x).1
  unfolding answered
  answered-Owned (done v, s) o = o
  answered-Owned (failure f, s) o = record { known = o.known; reachable = o.reachable }
  answered-Owned (panic, s) o = o

  if-Owned :
      (b : Bool) (x y : Reply × Session World)
      → Owned pg config laws x.1
      → Owned pg config laws y.1
      → Owned pg config laws (if b then x else y).1
  if-Owned true x y o p = o
  if-Owned false x y o p = p

  dispatch-Owned :
      (sig : ℕ) (fields : Values) (s : Session World)
      → Owned pg config laws s
      → Owned pg config laws (dispatch pg config sig fields s).1
  unfolding dispatch
  dispatch-Owned sig fields s o =
      let extra = last_field fields in
      if-Owned (sig == hello_sig) _ _
        (answered-Owned (hello pg config extra s) (hello-Owned pg config laws extra s o))
        (if-Owned (sig == run_sig) _ _
          (answered-Owned (run_query pg config fields s)
            ((run_query-Keeps pg config laws fields).at s o))
          (if-Owned (sig == pull_sig) _ _ (pull-Owned pg config laws extra true s o) (
            if-Owned (sig == discard_sig) _ _ (pull-Owned pg config laws extra false s o) (
              if-Owned (sig == begin_sig) _ _
                (answered-Owned (begin pg config extra s) (begin-Owned pg config laws extra s o))
                (if-Owned (sig == commit_sig) _ _
                  (answered-Owned (end_tx pg config (codes "COMMIT") s)
                    (end_tx-Owned pg config laws (codes "COMMIT") s commit_closes o))
                  (if-Owned (sig == rollback_sig) _ _
                    (answered-Owned (end_tx pg config (codes "ROLLBACK") s)
                      (end_tx-Owned pg config laws (codes "ROLLBACK") s rollback_closes o))
                    (if-Owned (sig == reset_sig) _ _
                      (answered-Owned (reset pg config s) (reset-Owned pg config laws s o))
                      (if-Owned (sig == route_sig) _ _ o
                        (record { known = o.known; reachable = o.reachable })))))))))

  reset_result :
      (s : Session World)
      → ((reset pg config s).1.pending ≡ []) × ((reset pg config s).1.in_tx ≡ false)
  unfolding reset
  reset_result s = split s.in_tx refl
    where
      cleared : Session World
      cleared = record s { pending = []; cursor = 0 }

      world_only : (rolled_back pg config cleared).pending ≡ []
      world_only = unset s.connected
        where
          unset :
              (b : Bool)
              → (if b
                  then record cleared { world = (batch (codes "ROLLBACK") s.world).1 }
                  else cleared).pending
                ≡ []
          unset true = refl
          unset false = refl

      split :
          (b : Bool)
          → s.in_tx ≡ b
          → ((if b
                then record (rolled_back pg config cleared) { in_tx = false }
                else cleared).pending
              ≡ [])
            × ((if b
                  then record (rolled_back pg config cleared) { in_tx = false }
                  else cleared).in_tx
                ≡ false)
      split true e = (world_only, refl)
      split false e = (refl, e)

  receive-reset :
      (s : Session World)
      → receive pg config (Value.structure reset_sig Value.nil) s
        ≡ (wrote (success (Value.dict Value.end) ∷ []), (reset pg config s).1)
  unfolding receive dispatch reset answered
  receive-reset s =
      elim s.state
        as (λ t.
          (if is_failed t && false
            then (wrote (ignored ∷ []), s)
            else (wrote (success (Value.dict Value.end) ∷ []), (reset pg config s).1))
          ≡ (wrote (success (Value.dict Value.end) ∷ []), (reset pg config s).1)) [
            | ready ↦ refl
            | streaming ↦ refl
            | failed ↦ refl
          ]

  reset_restores :
      (s : Session World)
      → Owned pg config laws s
      → let (reply, s') = receive pg config (Value.structure reset_sig Value.nil) s in
        (reply ≡ wrote (success (Value.dict Value.end) ∷ []))
        × (s'.state ≡ ready)
        × (s'.pending ≡ [])
        × (s'.in_tx ≡ false)
        × (is_open s'.world ≡ false)
  unfolding reset
  reset_restores s o =
      let (p, q) = reset_result s in
      rw (receive-reset s) (
        refl,
        refl,
        p,
        q,
        elim (Bool-cases (is_open (reset pg config s).1.world)) [
          | inl e ↦ absurd (cc ((reset-Owned pg config laws s o).known e, q))
          | inr e ↦ e
        ],
      )

  pub receive-Owned :
      (m : Value) (s : Session World)
      → Owned pg config laws s
      → Owned pg config laws (receive pg config m s).1
  unfolding receive
  receive-Owned (Value.structure sig fields) s o =
      if-Owned (sig == goodbye_sig) _ _ o (
        if-Owned (is_failed s.state && not (sig == reset_sig)) _ _ o
          (dispatch-Owned sig fields s o))
  receive-Owned Value.null s o = o
  receive-Owned (Value.bool b) s o = o
  receive-Owned (Value.int i) s o = o
  receive-Owned (Value.float x) s o = o
  receive-Owned (Value.string t) s o = o
  receive-Owned (Value.list xs) s o = o
  receive-Owned (Value.dict m) s o = o

  proceed-Owned :
      (rest : Session World → List Value × Session World) (x : Reply × Session World)
      → Owned pg config laws x.1
      → ((s : Session World) → Owned pg config laws s → Owned pg config laws (rest s).1)
      → Owned pg config laws (proceed pg config rest x).1
  unfolding proceed
  proceed-Owned rest (wrote out, s) o again = again s o
  proceed-Owned rest (goodbye, s) o again = o
  proceed-Owned rest (not_a_message, s) o again = o
  proceed-Owned rest (crashed, s) o again = o

  run-Owned_from :
      (ms : List Value) (s : Session World)
      → Owned pg config laws s
      → Owned pg config laws (run pg config ms s).1
  unfolding run
  run-Owned_from [] s o = o
  run-Owned_from (m ∷ ms) s o =
      proceed-Owned (run pg config ms) (receive pg config m s) (receive-Owned m s o)
        (run-Owned_from ms)

-- On a server that treats transactions as documented and starts without one, whatever messages a
-- client sends and wherever they fail, the session knows of every transaction that is open on the
-- server and can reach it: when its in_tx is false, none is open. So no query that commits by itself
-- leaves its transaction behind.
pub run-Owned :
    (pg : Postgres) (config : Config) (laws : Transactional pg) (ms : List Value) (w : pg.World)
    → laws.is_open w ≡ false
    → Owned pg config laws (run pg config ms (start pg config w)).1
run-Owned pg config laws ms w e =
    run-Owned_from pg config laws ms (start pg config w) (Closed-Owned pg config laws e)

-- On such a server, after any messages a RESET succeeds, brings the session back to Ready without a result, and leaves
-- no transaction open on the server.
pub reset_closes :
    (pg : Postgres) (config : Config) (laws : Transactional pg) (ms : List Value) (w : pg.World)
    → laws.is_open w ≡ false
    → let s = (run pg config ms (start pg config w)).1 in
      let (reply, s') = receive pg config (Value.structure reset_sig Value.nil) s in
      (reply ≡ wrote (success (Value.dict Value.end) ∷ []))
      × (s'.state ≡ ready)
      × (s'.pending ≡ [])
      × (s'.in_tx ≡ false)
      × (laws.is_open s'.world ≡ false)
reset_closes pg config laws ms w e =
    reset_restores pg config laws (run pg config ms (start pg config w)).1
      (run-Owned pg config laws ms w e)
