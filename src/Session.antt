-- ===== src/Session.antt =====
-- bolt/src/session.rs: one Bolt connection, from the handshake to the queries.
pub mod Json
pub mod Values
pub mod Settings
pub mod Postgres
pub mod State
pub mod Prefix
pub mod Slices
pub mod Plans
pub mod Crashes
pub mod RoundTrip
pub mod Query
pub mod Serve
pub mod Handshake
pub mod Streaming
pub mod Progress
pub mod Transactions
pub mod Ownership
pub mod TxMessages
pub mod Queries
pub mod Isolation
mod Checks
