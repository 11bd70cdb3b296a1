-- ===== src/Listener.antt =====
-- The listener of bolt/src/main.rs: how many sessions are open while connections arrive and threads
-- end, in any order.
pub mod Bounds
mod Checks
use ontological_db.Base.{
  ℕ, ◌+◌, ◌-◌, ◌^◌, ◌≡◌, Bool, true, false, ◌==◌, leb, if◌then◌else◌, List, [], ◌∷◌, ◌++◌,
}

abbrev pub max_sessions : ℕ
max_sessions = 256

-- The loop of `main` waits for a connection, or it has read the count and is about to raise it.
pub data Phase : Type 0 where
  accepting admitting : Phase

-- The phase, the value of `live`, and the sessions whose threads hold a slot.
pub data Gateway : Type 0 where
  gateway : Phase → ℕ → List ℕ → Gateway

-- The test that refuses a connection at the door.
unfoldable pub refuses : ℕ → ℕ → Bool
refuses max live = leb max live

-- `fetch_sub(1)` on a `usize`, which wraps around.
unfoldable pub fetch_sub : ℕ → ℕ
fetch_sub live = if live == 0 then 2 ^ 64 - 1 else live - 1

-- One step of the loop or the end of one thread, by returning, by an error or by a panic: its slot is
-- dropped. Between the test and the rise of the count threads may end. The rise, the slot and the start
-- of the thread are one step; that the thread cannot be started is not modelled.
pub data Step (max : ℕ) : Gateway → Gateway → Type 0 where
  accept_failed :
      {live : ℕ} {sessions : List ℕ}
      → Step max (gateway accepting live sessions) (gateway accepting live sessions)
  refuse :
      {live : ℕ} {sessions : List ℕ}
      → refuses max live ≡ true
      → Step max (gateway accepting live sessions) (gateway accepting live sessions)
  pass :
      {live : ℕ} {sessions : List ℕ}
      → refuses max live ≡ false
      → Step max (gateway accepting live sessions) (gateway admitting live sessions)
  spawn :
      {live : ℕ} {sessions : List ℕ} (session : ℕ)
      → Step max
          (gateway admitting live sessions)
          (gateway accepting (live + 1) (session ∷ sessions))
  drop_slot :
      {phase : Phase} {live : ℕ} (session : ℕ) (before after : List ℕ)
      → Step max
          (gateway phase live (before ++ session ∷ after))
          (gateway phase (fetch_sub live) (before ++ after))

-- What the gateway comes to, from its start on.
pub data Reachable (max : ℕ) : Gateway → Type 0 where
  begin : Reachable max (gateway accepting 0 [])
  next : {g h : Gateway} → Reachable max g → Step max g h → Reachable max h
