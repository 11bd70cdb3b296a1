-- ===== src/Session/Postgres.antt =====
-- PostgreSQL and the crates through which bolt/src/session.rs calls it, as a parameter: each call
-- reads and changes a world and answers or fails.
use ontological_db.Base.{ℕ, List, Option}
use ontological_db.Base.Outcome.{Result}
use ontological_db.Session.Json.{Json}
use ontological_db.Session.Settings.{Text}

-- The `Config` of bolt/src/main.rs.
pub record Config : Type 0 where
  pub pg_host : Text
  pub pg_port : ℕ
  pub pg_database : Text
  pub default_graph : Text
  pub advertised : Text

-- `postgres::Error`: the message of the server, if it comes from there, and the text of the error.
pub record PgError : Type 0 where
  pub db_message : Option Text
  pub text : Text

-- `print` and `parse` are serde_json's. `check`, `columns`, `cypher` and `stats` are the queries that
-- call the engine's functions og_cypher_check, og_cypher_columns, og_cypher and og_cypher_stats.
pub record Postgres : Type 1 where
  pub World : Type 0
  pub process_id : Text
  pub print : Json → Text
  pub parse : Text → Option Json
  pub connect : Config → Text → Option Text → World → Result PgError (Unit {0}) × World
  pub batch : Text → World → Result PgError (Unit {0}) × World
  pub set_config : Text → Text → World → Result PgError (Unit {0}) × World
  pub check : Text → World → Result PgError Text × World
  pub columns : Text → World → Result PgError (List Text) × World
  pub cypher : Text → Text → Text → World → Result PgError (List (Option Text)) × World
  pub stats : World → Result PgError Text × World
