-- ===== src/Session/Progress.antt =====
-- That streaming ends, and that a failed session of bolt/src/session.rs waits for RESET.
use ontological_db.Base.{
  ==_iff, list_eq, ℕ, zero, suc, ◌+◌, ◌-◌, ◌≤◌, ◌<◌, ◌≡◌, ◌≢◌, refl, sym, ap, ◌∙◌, ◌⊎◌, inl, inr,
  Bool, true, false, Bool-cases, List, [], ◌∷◌, ◌++◌, append-nil, map, length, length-drop,
  replicate, min, ltb, ltb→lt, ◌==◌, ◌&&◌, not, arith, if◌then◌else◌, Option, All,
}
use ontological_db.Base.Int.{pos}
use ontological_db.Text.Strings.{codes}
use ontological_db.PackStream.Value.{Value, Values, Entries}
use ontological_db.PackStream.Value
use ontological_db.Session.Postgres.{Config, Postgres}
use ontological_db.Session.State.{Session, State, ready, streaming, failed}
use ontological_db.Session.Serve.{
  no_result, wrote, pull, pulled, pull_taken, summary, write_stats, receive, run, proceed, want,
  ignored, dispatch, reset_sig, goodbye_sig, is_failed, is_streaming,
}
use ontological_db.Session.Streaming.{receive-pull, payloads, remaining, pull_message, run-pulls}

-- The argument of a PULL for `n` records.
abbrev pub batch_of : ℕ → Value
batch_of n = Value.dict (Value.entry (codes "n") (Value.int (pos n)) Value.end)

module _ (pg : Postgres) (config : Config) where
  open pg use {World}

  if-keeps :
      (P : Session World → Type 0) (b : Bool) (x y : Option Value × Session World)
      → P x.1
      → P y.1
      → P (if b then x else y).1
  if-keeps P true x y p q = p
  if-keeps P false x y p q = q

  -- The session is at rest: nothing is left of the result.
  abbrev AtRest : Session World → Type 0
  AtRest s = (s.state ≡ ready) × (remaining s ≡ [])

  summary-AtRest : (s : Session World) → AtRest s → AtRest (summary pg config s).1
  unfolding summary write_stats
  summary-AtRest s r = if-keeps AtRest s.writes _ _ (if-keeps AtRest s.connected _ _ r r) r

  -- One PULL of at least one record.
  pull_step :
      (n : ℕ) (s : Session World)
      → 1 ≤ n
      → s.state ≡ streaming
      → let s' = (receive pg config (pull_message (batch_of n)) s).1 in
        AtRest s' ⊎ ((s'.state ≡ streaming) × (length (remaining s') < length (remaining s)))
  unfolding receive dispatch pull pull_taken want list_eq
  pull_step n s h e = by_state s.state e
    where
      k : ℕ
      k = min n (length s.pending - s.cursor)

      Result : Session World → Type 0
      Result s' =
          AtRest s' ⊎ ((s'.state ≡ streaming) × (length (remaining s') < length (remaining s)))

      taken : Result (pull_taken pg config k true s).1
      taken = elim (Bool-cases (ltb (s.cursor + k) (length s.pending))) [
        | inl m ↦ rw m (
            inr (
              e,
              omega (
                arith,
                ltb→lt _ _ m,
                length-drop s.cursor s.pending,
                length-drop (s.cursor + k) s.pending,
              ),
            ))
        | inr m ↦ rw m (
            inl
              (summary-AtRest (record s { state = ready; pending = []; cursor = 0 }) (refl, refl)))
      ]

      by_state :
          (t : State)
          → t ≡ streaming
          → Result
              (if is_failed t && true
                then (wrote (ignored ∷ []), s)
                else pulled pg config (
                    if is_streaming t
                    then pull_taken pg config k true s
                    else (no_result pg config ∷ [], record s { state = failed }))).1
      by_state ready q = absurd (cc q)
      by_state failed q = absurd (cc q)
      by_state streaming q = taken

  pulls_end :
      (n fuel : ℕ) (s : Session World)
      → 1 ≤ n
      → s.state ≡ streaming
      → length (remaining s) ≤ fuel
      → (k : ℕ) × (k ≤ fuel + 1)
        × AtRest (run pg config (map pull_message (replicate k (batch_of n))) s).1
  unfolding run proceed
  pulls_end n zero s h e r = elim (pull_step n s h e) [
    | inl a ↦
        let p = receive-pull pg config (batch_of n) s in
        (1, omega arith, rw p.writes (rw p.writes at a))
    | inr (q, l) ↦ absurd (omega arith)
  ]
  pulls_end n (suc fuel) s h e r =
      let p = receive-pull pg config (batch_of n) s in
      let again = pulls_end n fuel p.next h in
      elim (pull_step n s h e) [
        | inl a ↦ (1, omega arith, rw p.writes (rw p.writes at a))
        | inr b ↦
            let (q, l) = rw p.writes at b in
            let (k, m, a) = again q (omega arith) in (suc k, omega arith, rw p.writes a)
      ]

-- An open result is streamed to its end by PULLs of any size: after as many as there are records and
-- one, at most, the session is Ready and the records were delivered, each once and in order.
pub pulls_deliver :
    (pg : Postgres) (config : Config) (n : ℕ) (s : Session pg.World)
    → 1 ≤ n
    → s.state ≡ streaming
    → (k : ℕ) × (k ≤ length (remaining s) + 1)
      × ((run pg config (map pull_message (replicate k (batch_of n))) s).1.state ≡ ready)
      × (payloads (run pg config (map pull_message (replicate k (batch_of n))) s).0 ≡ remaining s)
pulls_deliver pg config n s h e =
    let (k, l, a) = pulls_end pg config n (length (remaining s)) s h e (omega arith) in
    let (out, s') = run pg config (map pull_message (replicate k (batch_of n))) s in
    (
      k,
      l,
      a.0,
      sym (append-nil (payloads out))
          ∙ ap (λ t. payloads out ++ t) (sym a.1)
          ∙ run-pulls pg config (replicate k (batch_of n)) s,
    )

-- A message of another kind than RESET and GOODBYE.
abbrev pub Waits : ℕ × Values → Type 0
Waits (sig, fields) = (sig ≢ reset_sig) × (sig ≢ goodbye_sig)

abbrev pub message : ℕ × Values → Value
message (sig, fields) = Value.structure sig fields

differs : (a b : ℕ) → a ≢ b → (a == b) ≡ false
differs a b h = elim (Bool-cases (a == b)) [ inl e ↦ absurd (h ((==_iff a b).0 e)) | inr e ↦ e ]

gate :
    {X : Type 0} (g f b : Bool) (w x y : X)
    → g ≡ false
    → f ≡ true
    → b ≡ false
    → (if g then w else if f && not b then x else y) ≡ x
gate g f b w x y p q r = rw (p, q, r) refl

receive_failed :
    (pg : Postgres) (config : Config) (m : ℕ × Values) (s : Session pg.World)
    → s.state ≡ failed
    → Waits m
    → receive pg config (message m) s ≡ (wrote (ignored ∷ []), s)
unfolding receive
receive_failed pg config (sig, fields) s e (a, b) =
    gate (sig == goodbye_sig) (is_failed s.state) (sig == reset_sig) _ _ _
      (differs sig goodbye_sig b) (ap is_failed e) (differs sig reset_sig a)

-- After a failure every message but RESET and GOODBYE is answered by IGNORED, one for one, and
-- changes nothing: neither the session nor the database.
pub run_failed :
    (pg : Postgres) (config : Config) (ms : List (ℕ × Values)) (s : Session pg.World)
    → s.state ≡ failed
    → All Waits ms
    → run pg config (map message ms) s ≡ (replicate (length ms) ignored, s)
unfolding run proceed
run_failed pg config [] s e h = refl
run_failed pg config (m ∷ ms) s e (h, hs) =
    rw (receive_failed pg config m s e h, run_failed pg config ms s e hs) refl
