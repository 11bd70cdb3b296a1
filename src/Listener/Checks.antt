-- ===== src/Listener/Checks.antt =====
-- A run of the listener of bolt/src/main.rs.
use ontological_db.Base.{ℕ, ◌≡◌, ◌≤◌, ◌↔◌, refl, true, List, [], ◌∷◌, length}
use ontological_db.Listener.{
  accepting, gateway, refuses, fetch_sub, Reachable, begin, next, refuse, pass, spawn, drop_slot,
}
use ontological_db.Listener.Bounds.{sessions_bounded}

abbrev two : List ℕ
two = 8 ∷ 7 ∷ []

-- Two sessions fill a gateway for two, and a third connection is refused.
busy : Reachable 2 (gateway accepting 2 two)
unfolding refuses
busy =
    next (next (next (next (next begin (pass refl)) (spawn 7)) (pass refl)) (spawn 8)) (refuse refl)

sessions_bounded_example :
    (2 ≡ length two) × (length two ≤ 2) × ((refuses 2 2 ≡ true) ↔ (length two ≡ 2))
sessions_bounded_example = sessions_bounded 2 2 two busy

-- A session ends between the test and the rise of the count.
late : Reachable 2 (gateway accepting 1 (8 ∷ []))
unfolding refuses fetch_sub
late =
    next (next (next (next (next begin (pass refl)) (spawn 7)) (pass refl)) (drop_slot 7 [] []))
      (spawn 8)
