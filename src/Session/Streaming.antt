-- ===== src/Session/Streaming.antt =====
-- The results that bolt/src/session.rs streams: what PULL delivers over a whole conversation.
use ontological_db.Base.{
  ◌&&◌, length-drop, ltb-false→le, ℕ, zero, suc, ◌+◌, ◌-◌, ◌≤◌, ◌≡◌, refl, sym, ap, ◌∙◌, inl, inr,
  Bool, true, false, Bool-cases, List, [], ◌∷◌, ◌++◌, append_assoc, append-nil, map, length, take,
  drop, take-append-drop, ltb, ◌==◌, arith, if◌then◌else◌, Option,
}
use ontological_db.PackStream.Value.{Value, Values, Entries}
use ontological_db.PackStream.Value
use ontological_db.Session.Postgres.{Config, Postgres}
use ontological_db.Session.State.{into_message, Session, State, ready, streaming, failed}
use ontological_db.Session.Serve.{
  proceed, pulled, is_failed, Reply, wrote, pull, pull_taken, summary, write_stats, receive, run,
  record_message, want, wanted, is_streaming, pull_sig, more_to_come, no_result, ignored, dispatch,
}

-- The record that a message carries, if it is a RECORD.
pub payload : Value → List Value
payload (Value.structure sig (Value.cons r Value.nil)) = if sig == 0x71 then r ∷ [] else []
payload other = []

pub payloads : List Value → List Value
unfolding payload
payloads [] = []
payloads (m ∷ ms) = payload m ++ payloads ms

payloads-append : (xs ys : List Value) → payloads (xs ++ ys) ≡ payloads xs ++ payloads ys
unfolding payloads
payloads-append [] ys = refl
payloads-append (x ∷ xs) ys =
    ap (λ t. payload x ++ t) (payloads-append xs ys)
    ∙ sym (append_assoc (payload x) (payloads xs) (payloads ys))

payloads-records : (rs : List Value) → payloads (map record_message rs) ≡ rs
unfolding payloads payload
payloads-records [] = refl
payloads-records (r ∷ rs) = ap (λ (t : List Value). r ∷ t) (payloads-records rs)

payloads_last :
    (rs : List Value) (m : Value) → payload m ≡ [] → payloads (map record_message rs ++ m ∷ []) ≡ rs
unfolding payloads
payloads_last rs m e =
    payloads-append (map record_message rs) (m ∷ []) ∙ rw (payloads-records rs, e) (append-nil rs)

drop_empty {ℓ} : {A : Type ℓ} (n : ℕ) → drop {A = A} n [] ≡ []
drop_empty zero = refl
drop_empty (suc n) = refl

drop-drop {ℓ} : {A : Type ℓ} (m n : ℕ) (xs : List A) → drop (m + n) xs ≡ drop n (drop m xs)
drop-drop zero n xs = let e : 0 + n ≡ n = omega arith in rw e refl
drop-drop (suc m) n [] = rw (drop_empty (suc m + n), drop_empty n) refl
drop-drop (suc m) n (x ∷ xs) =
    let e : suc m + n ≡ suc (m + n) = omega arith in rw e (drop-drop m n xs)

take_long {ℓ} : {A : Type ℓ} (n : ℕ) (xs : List A) → length xs ≤ n → take n xs ≡ xs
take_long zero [] h = refl
take_long zero (x ∷ xs) h = absurd (omega arith)
take_long (suc n) [] h = refl
take_long (suc n) (x ∷ xs) h = ap (λ t. x ∷ t) (take_long n xs (omega arith))

module _ {World : Type 0} where
  -- The records that are still to be delivered.
  abbrev pub remaining : Session World → List Value
  remaining s = drop s.cursor s.pending

-- A PULL with its argument.
abbrev pub pull_message : Value → Value
pull_message extra = Value.structure pull_sig (Value.cons extra Value.nil)

module _ (pg : Postgres) (config : Config) where
  open pg use {World}

  if-remaining :
      (b : Bool) (x y : Option Value × Session World) (rest : List Value)
      → remaining x.1 ≡ rest
      → remaining y.1 ≡ rest
      → remaining (if b then x else y).1 ≡ rest
  if-remaining true x y rest p q = p
  if-remaining false x y rest p q = q

  write_stats-remaining : (s : Session World) → remaining (write_stats pg config s).1 ≡ remaining s
  unfolding write_stats
  write_stats-remaining s = if-remaining s.connected _ _ (remaining s) refl refl

  summary-remaining :
      (s : Session World)
      → (payload (summary pg config s).0 ≡ []) × (remaining (summary pg config s).1 ≡ remaining s)
  unfolding summary payload
  summary-remaining s =
      (refl, if-remaining s.writes _ _ (remaining s) (write_stats-remaining s) refl)

  pull_taken-payloads :
      (n : ℕ) (s : Session World)
      → payloads (pull_taken pg config n true s).0 ++ remaining (pull_taken pg config n true s).1
        ≡ remaining s
  unfolding pull_taken
  pull_taken-payloads n s =
      let closing = record s { state = ready; pending = []; cursor = 0 } in
      let (quiet, kept) = summary-remaining closing in
      let sent = take n (remaining s) in
      let more : payload (more_to_come pg config) ≡ [] = unfold payload in refl in
      elim (Bool-cases (ltb (s.cursor + n) (length s.pending))) [
        | inl e ↦
            rw (e, payloads_last sent (more_to_come pg config) more, drop-drop s.cursor n s.pending)
              (take-append-drop n (remaining s))
        | inr e ↦
            rw (e, payloads_last sent _ quiet, kept)
              (append-nil sent
                ∙ take_long n (remaining s)
                    (omega (arith, ltb-false→le _ _ e, length-drop s.cursor s.pending)))
      ]

  -- What one PULL brings, in whatever state.
  pub record Pulled (s : Session World) (x : Reply × Session World) : Type 0 where
    pub out : List Value
    pub next : Session World
    pub writes : x ≡ (wrote out, next)
    pub conserved : payloads out ++ remaining next ≡ remaining s

  pub receive-pull :
      (extra : Value) (s : Session World) → Pulled s (receive pg config (pull_message extra) s)
  unfolding receive dispatch pull no_result into_message payloads payload
  receive-pull extra s = by_state s.state refl
    where
      by_state :
          (t : State)
          → s.state ≡ t
          → Pulled s (
              if is_failed t && true
              then (wrote (ignored ∷ []), s)
              else pulled pg config (
                  if is_streaming t
                  then pull_taken pg config
                      (wanted (want extra) (length s.pending - s.cursor))
                      true
                      s
                  else (no_result pg config ∷ [], record s { state = failed })))
      by_state ready e = record {
        out = no_result pg config ∷ [];
        next = record s { state = failed };
        writes = refl;
        conserved = refl;
      }
      by_state failed e = record { out = ignored ∷ []; next = s; writes = refl; conserved = refl }
      by_state streaming e = record {
        out = (pull_taken pg config (wanted (want extra) (length s.pending - s.cursor)) true s).0;
        next = (pull_taken pg config (wanted (want extra) (length s.pending - s.cursor)) true s).1;
        writes = refl;
        conserved = pull_taken-payloads (wanted (want extra) (length s.pending - s.cursor)) s;
      }

  -- Over any sequence of PULLs, whatever their sizes and whenever the result ends, the records
  -- delivered and those still to be delivered are together those that were there at first, in
  -- order: none is lost, repeated or made up.
  pub run-pulls :
      (extras : List Value) (s : Session World)
      → let (out, s') = run pg config (map pull_message extras) s in
        payloads out ++ remaining s' ≡ remaining s
  unfolding run proceed payloads
  run-pulls [] s = refl
  run-pulls (extra ∷ extras) s =
      let p = receive-pull extra s in
      let later = run pg config (map pull_message extras) p.next in
      rw
        (
          p.writes,
          payloads-append p.out later.0,
          append_assoc (payloads p.out) (payloads later.0) (remaining later.1),
          run-pulls extras p.next,
        )
        p.conserved
