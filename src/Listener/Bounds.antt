-- ===== src/Listener/Bounds.antt =====
-- The bound on the sessions of bolt/src/main.rs.
use ontological_db.Base.{
  ℕ, ◌≡◌, ◌≤◌, ◌<◌, ◌↔◌, refl, true, leb→le, le→leb, List, ◌∷◌, ◌++◌, length, length-append, arith,
}
use ontological_db.Listener.{
  Phase, accepting, admitting, Gateway, gateway, refuses, fetch_sub, Step, accept_failed, refuse,
  pass, spawn, drop_slot, Reachable, begin, next,
}

-- The count is that of the sessions, and there is room for the one about to be admitted.
Counts : ℕ → Gateway → Type 0
Counts max (gateway accepting live sessions) = (live ≡ length sessions) × (live ≤ max)
Counts max (gateway admitting live sessions) = (live ≡ length sessions) × (live < max)

drop-Counts :
    (max : ℕ) (phase : Phase) (live session : ℕ) (before after : List ℕ)
    → Counts max (gateway phase live (before ++ session ∷ after))
    → Counts max (gateway phase (fetch_sub live) (before ++ after))
unfolding Counts fetch_sub
drop-Counts max accepting live session before after h =
    let a = length-append before (session ∷ after) in
    let b = length-append before after in ground (arith, a, b)
drop-Counts max admitting live session before after h =
    let a = length-append before (session ∷ after) in
    let b = length-append before after in ground (arith, a, b)

step-Counts : {max : ℕ} {g h : Gateway} → Step max g h → Counts max g → Counts max h
unfolding Counts refuses
step-Counts accept_failed c = c
step-Counts (refuse e) c = c
step-Counts (pass e) c = ground arith
step-Counts (spawn session) c = omega arith
step-Counts {max} (drop_slot {phase = phase} {live = live} session before after) c =
    drop-Counts max phase live session before after c

Reachable-Counts : {max : ℕ} {g : Gateway} → Reachable max g → Counts max g
unfolding Counts
Reachable-Counts begin = (refl, omega arith)
Reachable-Counts (next r s) = step-Counts s (Reachable-Counts r)

-- In whatever order connections arrive and threads end, the count is that of the open sessions, it
-- never exceeds the limit, and a connection is refused exactly when as many sessions are open.
pub sessions_bounded :
    (max live : ℕ) (sessions : List ℕ)
    → Reachable max (gateway accepting live sessions)
    → (live ≡ length sessions)
      × (length sessions ≤ max)
      × ((refuses max live ≡ true) ↔ (length sessions ≡ max))
unfolding refuses Counts
sessions_bounded max live sessions r =
    let (e, l) = Reachable-Counts r in
    (
      e,
      omega arith,
      (λ h. let k = leb→le max live h in omega arith, λ q. le→leb max live (omega arith)),
    )
