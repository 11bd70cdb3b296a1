-- ===== src/Session/Crashes.antt =====
-- A query that ends the connection of bolt/src/session.rs.
use ontological_db.Base.{◌≡◌, ◌<◌, refl, true, false, length, get_or}
use ontological_db.Text.Strings.{trim_start, is_continuation}
use ontological_db.PackStream.Value.{Value, Values}
use ontological_db.PackStream.Value
use ontological_db.Session.Settings.{Text}
use ontological_db.Session.Postgres.{Config, Postgres}
use ontological_db.Session.State.{Session, Outcome, panic, done, failure}
use ontological_db.Session.Query.{run_query, query_text, plan_prefix}
use ontological_db.Session.Serve.{receive, dispatch, crashed, run_sig, is_failed, answered}
use ontological_db.Session.Slices.{split_plan_prefix_panics}

module _ (pg : Postgres) (config : Config) where
  open pg use {World}

  run_query_panics :
      (q : Text) (rest : Values) (s : Session World)
      → 7 < length (trim_start q)
      → is_continuation (get_or (trim_start q) 7 0) ≡ true
      → (run_query pg config (Value.cons (Value.string q) rest) s).0 ≡ panic
  unfolding run_query query_text plan_prefix
  run_query_panics q rest s l c = rw (split_plan_prefix_panics q l c) refl

  answered_panic :
      (x : Outcome Value × Session World) → x.0 ≡ panic → (answered pg config x).0 ≡ crashed
  unfolding answered
  answered_panic (done v, s) e = absurd (cc e)
  answered_panic (failure f, s) e = absurd (cc e)
  answered_panic (panic, s) e = refl

-- A RUN of a query whose eighth byte behind its leading white space lies inside a character ends the
-- thread of the connection, with no answer, on every session that has not failed before.
pub receive_crashes :
    (pg : Postgres) (config : Config) (q : Text) (rest : Values) (s : Session pg.World)
    → is_failed s.state ≡ false
    → 7 < length (trim_start q)
    → is_continuation (get_or (trim_start q) 7 0) ≡ true
    → (receive pg config (Value.structure run_sig (Value.cons (Value.string q) rest)) s).0 ≡ crashed
unfolding receive dispatch
receive_crashes pg config q rest s f l c = rw f (
    answered_panic pg config (run_query pg config (Value.cons (Value.string q) rest) s)
      (run_query_panics pg config q rest s l c))
