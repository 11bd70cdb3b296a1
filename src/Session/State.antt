-- ===== src/Session/State.antt =====
-- The `Session` of bolt/src/session.rs, its failures, and the actions on it. What was written before a
-- failure stays written, so an action gives the session beside the failure too.
use ontological_db.Base.{ℕ, Bool, ◌||◌, if◌then◌else◌, List, none, some}
use ontological_db.Text.Strings.{codes, contains_text}
use ontological_db.PackStream.Value.{Value, insert_all}
use ontological_db.PackStream.Value
use ontological_db.Session.Settings.{Text}
use ontological_db.Session.Postgres.{PgError}

pub data State : Type 0 where
  ready streaming failed : State

-- `connected` is `pg.is_some()`; the connection itself is in the world. `writes` is `qtype == "w"`.
pub record Session (World : Type 0) : Type 0 where
  pub world : World
  pub connected : Bool
  pub state : State
  pub graph : Text
  pub in_tx : Bool
  pub pending : List Value
  pub fields : List Text
  pub cursor : ℕ
  pub writes : Bool
  pub tx_meta : List (Text × Text)

pub record Failure : Type 0 where
  pub code : Text
  pub message : Text

abbrev pub client_failure : Text → Text → Failure
client_failure code message = record { code = code; message = message }

-- `pg_message`
abbrev pub pg_message : PgError → Text
pg_message e = elim e.db_message [ none ↦ e.text | some m ↦ m ]

unfoldable pub from_pg : PgError → Failure
unfolding contains_text
from_pg e =
    let message = pg_message e in
    let code : Text =
      if contains_text (codes "not supported") message
        || contains_text (codes "expected") message
        || contains_text (codes "unknown label") message
        || contains_text (codes "is not defined") message
      then codes "Neo.ClientError.Statement.SyntaxError"
      else if contains_text (codes "does not exist") message
      then codes "Neo.ClientError.Database.DatabaseNotFound"
      else if contains_text (codes "permission denied") message
      then codes "Neo.ClientError.Security.Forbidden"
      else codes "Neo.ClientError.Statement.ArgumentError" in
    client_failure code message

-- `map` of bolt/src/packstream.rs, from entries in any order.
unfoldable pub map_of : Value.Entries → Value
unfolding insert_all
map_of pairs = Value.dict (insert_all Value.end pairs)

abbrev pub failure_signature : ℕ
failure_signature = 0x7F

unfoldable pub into_message : Failure → Value
unfolding insert_all
into_message f = Value.structure failure_signature (
    Value.cons
      (map_of (
        Value.entry (codes "code") (Value.string f.code)
          (Value.entry (codes "message") (Value.string f.message) Value.end)))
      Value.nil)

-- A panic ends the thread of the connection.
pub data Outcome (A : Type 0) : Type 0 where
  done : A → Outcome A
  failure : Failure → Outcome A
  panic : Outcome A

abbrev pub Exec : Type 0 → Type 0 → Type 0
Exec S A = S → Outcome A × S

module _ {S A : Type 0} where
  abbrev pub pure : A → Exec S A
  pure a s = (done a, s)

  abbrev pub fail : Failure → Exec S A
  fail f s = (failure f, s)

abbrev pub modify : {S : Type 0} → (S → S) → Exec S (Unit {0})
modify f s = (done tt, f s)

module _ {S A B : Type 0} where
  abbrev pub continue : Outcome A → (A → Exec S B) → Exec S B
  continue (done a) f s = f a s
  continue (failure x) f s = (failure x, s)
  continue panic f s = (panic, s)

  infixl 5 ◌>>=◌ ◌>>◌
  abbrev pub ◌>>=◌ : Exec S A → (A → Exec S B) → Exec S B
  ◌>>=◌ m f s = let (r, s') = m s in continue r f s'

  abbrev pub ◌>>◌ : Exec S A → Exec S B → Exec S B
  m >> n = m >>= λ _. n

  -- `cleanup` runs after a failure, and its own outcome is not looked at.
  abbrev pub handle : Outcome A → Exec S B → Exec S A
  handle (done a) cleanup s = (done a, s)
  handle (failure x) cleanup s = (failure x, (cleanup s).1)
  handle panic cleanup s = (panic, s)

  abbrev pub on_failure : Exec S A → Exec S B → Exec S A
  on_failure m cleanup s = let (r, s') = m s in handle r cleanup s'
