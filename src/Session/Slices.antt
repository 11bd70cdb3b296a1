-- ===== src/Session/Slices.antt =====
-- When `split_plan_prefix` of bolt/src/session.rs slices inside a character.
use ontological_db.Base.{
  lt→ltb, ℕ, zero, suc, ◌≡◌, ◌<◌, refl, inl, inr, true, false, Bool-cases, ◌==◌, List, [], ◌∷◌,
  none, length, drop, get_or, All, arith,
}
use ontological_db.Text.Strings.{is_continuation, trim_start, trim, space}
use ontological_db.Session.Settings.{Text}
use ontological_db.Session.Prefix.{split_plan_prefix, split_at}

abbrev pub IsAscii : List ℕ → Type 0
IsAscii = All (λ b. b < 128)

pub drop-IsAscii : (n : ℕ) (s : List ℕ) → IsAscii s → IsAscii (drop n s)
drop-IsAscii zero s h = h
drop-IsAscii (suc n) [] h = h
drop-IsAscii (suc n) (b ∷ s) h = drop-IsAscii n s h.1

trim-IsAscii : (f : ℕ) (s : List ℕ) → IsAscii s → IsAscii (trim f s)
unfolding trim
trim-IsAscii zero s h = h
trim-IsAscii (suc f) s h =
    let again = trim-IsAscii f (drop (space s) s) (drop-IsAscii (space s) s h) in
    elim (Bool-cases (space s == 0)) [ inl e ↦ rw e h | inr e ↦ rw e again ]

pub trim_start-IsAscii : (s : List ℕ) → IsAscii s → IsAscii (trim_start s)
unfolding trim_start
trim_start-IsAscii s h = trim-IsAscii (length s) s h

pub no_continuation : (n : ℕ) (s : List ℕ) → IsAscii s → is_continuation (get_or s n 0) ≡ false
unfolding is_continuation
no_continuation n [] h = refl
no_continuation zero (b ∷ s) h = ground arith
no_continuation (suc n) (b ∷ s) h = no_continuation n s h.1

-- A query whose eighth byte behind its leading white space lies inside a character makes
-- split_plan_prefix panic, whatever the query says.
pub split_plan_prefix_panics :
    (query : Text)
    → 7 < length (trim_start query)
    → is_continuation (get_or (trim_start query) 7 0) ≡ true
    → split_plan_prefix query ≡ none
unfolding split_plan_prefix split_at
split_plan_prefix_panics query l c = rw (lt→ltb _ _ l, c) refl
