-- ===== src/PackStream/Streams.antt =====
-- What `read_message` of bolt/src/packstream.rs does on any stream.
use ontological_db.Base.{
  ℕ, zero, suc, ◌+◌, ◌≤◌, ◌<◌, ◌≡◌, ◌≢◌, refl, sym, ap, ◌∙◌, subst, arith, append-nil, append_assoc,
  take-append-drop, false, ==_iff,
}
use ontological_db.PackStream.Reader
use ontological_db.PackStream.Bounds.{WithinBounds, read_value_bounds}
use ontological_db.PackStream.Chunked.{Parts, end_header, chunk, Sent, message, keepalive}
use ontological_db.Base.{ltb, ◌==◌, if◌then◌else◌, Bool-cases, inl, inr, ltb-false→le}
use ontological_db.Base.{List, [], ◌∷◌, ◌++◌, length, take, drop, length-append, length-take}
use ontological_db.Base.Outcome.{Result, ok, err, ◌>>=◌}
use ontological_db.PackStream.Value.{Value}
use ontological_db.PackStream.Words.{of_be}
use ontological_db.PackStream.Reader.{Reader, ReadError, read_value}
use ontological_db.PackStream.Message.{
  MessageError, bad_value, unexpected_eof, too_many_empty, too_long, out_of_fuel, max_message,
  max_empty_chunks, read_exact, decode, read_loop, read_message,
}
use ontological_db.PackStream.Messages.{
  decode_err, decode_ok, read_exact-append, length-empty_chunks, empty_chunks,
}

-- What a call may end with: a value and a stream as `P` says, or an error of the source.
abbrev Ending : (Value → List ℕ → Type 0) → Result MessageError (Value × List ℕ) → Type 0
Ending P (ok (v, rest)) = P v rest
Ending P (err out_of_fuel) = ⊥
Ending P (err (bad_value e)) = e ≢ Reader.out_of_fuel
Ending P (err unexpected_eof) = Unit
Ending P (err too_many_empty) = Unit
Ending P (err too_long) = Unit

-- A body that the stream holds, behind no more empty chunks than are left, of at most 16 MiB, whose
-- value this is.
abbrev Arrived : ℕ → List ℕ → Value → List ℕ → Type 0
Arrived e s v rest =
    (k : ℕ) × (body : List ℕ) × Sent k s body rest
    × (e + k ≤ max_empty_chunks)
    × (length body ≤ max_message)
    × (r : Reader) × (read_value body ≡ ok (v, r))

-- The same behind the chunks that are read already.
abbrev Gathered : List ℕ → List ℕ → Value → List ℕ → Type 0
Gathered head s v rest =
    (more : List ℕ) × Parts s more rest
    × (length (head ++ more) ≤ max_message)
    × (r : Reader) × (read_value (head ++ more) ≡ ok (v, r))

-- What `read_message` may answer.
abbrev pub WithinLimits : List ℕ → Result MessageError (Value × List ℕ) → Type 0
WithinLimits s = Ending (Arrived 0 s)

Ending-map :
    {P Q : Value → List ℕ → Type 0} (m : Result MessageError (Value × List ℕ))
    → ((v : Value) (rest : List ℕ) → P v rest → Q v rest)
    → Ending P m
    → Ending Q m
Ending-map (ok (v, rest)) f h = f v rest h
Ending-map (err out_of_fuel) f h = h
Ending-map (err (bad_value e)) f h = h
Ending-map (err unexpected_eof) f h = h
Ending-map (err too_many_empty) f h = h
Ending-map (err too_long) f h = h

decode-Ending :
    (body s : List ℕ) (P : Value → List ℕ → Type 0)
    → ((v : Value) (r : Reader) → read_value body ≡ ok (v, r) → P v s)
    → Ending P (decode body s)
decode-Ending body s P h = go (read_value body) refl (read_value_bounds body)
  where
    go :
        (m : Result ReadError (Value × Reader))
        → read_value body ≡ m
        → WithinBounds body m
        → Ending P (decode body s)
    go (ok (v, r)) e b = rw (decode_ok body s e) (h v r e)
    go (err x) e b = rw (decode_err body s e) b

chunk-Ending :
    (n : ℕ) (s : List ℕ) (P : Value → List ℕ → Type 0)
    (next : List ℕ → List ℕ → Result MessageError (Value × List ℕ))
    → ((part s2 : List ℕ) → length part ≡ n → part ++ s2 ≡ s → Ending P (next part s2))
    → Ending P (read_exact n s >>= λ (part, s2). next part s2)
unfolding read_exact
chunk-Ending n s P next h = elim (Bool-cases (ltb (length s) n)) [
  | inl short ↦ rw short tt
  | inr enough ↦ rw enough (
      h (take n s) (drop n s) (omega (arith, length-take n s, ltb-false→le _ _ enough))
        (take-append-drop n s))
]

-- With a chunk read, the loop goes on to the end of the message.
gather-Ending :
    (f : ℕ) (b : ℕ) (head : List ℕ) (e : ℕ) (s : List ℕ)
    → length s < f
    → length (b ∷ head) ≤ max_message
    → Ending (Gathered (b ∷ head) s) (read_loop f (b ∷ head) e s)
unfolding read_loop
gather-Ending zero a head e s h fits = absurd (omega arith)
gather-Ending (suc f) a head e [] h fits = unfold read_exact in tt
gather-Ending (suc f) a head e (b ∷ []) h fits = unfold read_exact in tt
gather-Ending (suc f) a head e (b ∷ c ∷ s) h fits = rw (read_exact-append (b ∷ c ∷ []) s) (
    after_header (of_be 0 (b ∷ c ∷ [])) refl
      (λ part s2 l m. gather-Ending f a (head ++ part) e s2 l m))
  where
    body : List ℕ
    body = a ∷ head

    after_header :
        (n : ℕ)
        → of_be 0 (b ∷ c ∷ []) ≡ n
        → ((part s2 : List ℕ)
            → length s2 < f
            → length (body ++ part) ≤ max_message
            → Ending (Gathered (body ++ part) s2) (read_loop f (body ++ part) e s2))
        → Ending (Gathered body (b ∷ c ∷ s)) (
            if n == 0
            then decode body s
            else if ltb max_message (length body + n)
            then err too_long
            else (read_exact n s >>= λ (part, s2). read_loop f (body ++ part) e s2))
    after_header n q again = elim (Bool-cases (n == 0)) [
      | inl last ↦
          let z : of_be 0 (b ∷ c ∷ []) ≡ 0 = q ∙ (==_iff n 0).0 last in
          rw last (
            decode-Ending body s (Gathered body (b ∷ c ∷ s)) (λ v r i.
              ([], end_header z, omega (arith, length-append body []), r, rw append-nil i)))
      | inr chunked ↦ rw chunked (elim (Bool-cases (ltb max_message (length body + n))) [
        | inl long ↦ rw long tt
        | inr short ↦ rw short (
            chunk-Ending n s (Gathered body (b ∷ c ∷ s)) _ (λ part s2 size split.
              let room = ltb-false→le max_message (length body + n) short in
              let some_bytes : n ≢ 0 = (λ i. let k = (==_iff n 0).1 i in cc (k, chunked)) in
              let shorter = length-append part s2 in
              let total = ap length split in
              Ending-map (read_loop f (body ++ part) e s2)
                (λ v rest g.
                  let (more, p, l, r, i) = g in
                  (
                    part ++ more,
                    subst (λ (t : List ℕ). Parts (b ∷ c ∷ t) (part ++ more) rest) split
                        (chunk part (q ∙ sym size) (omega arith) p),
                    subst (λ (t : List ℕ). length t ≤ max_message) (append_assoc body part more) l,
                    r,
                    subst (λ (t : List ℕ). read_value t ≡ ok (v, r)) (append_assoc body part more)
                        i,
                  ))
                (again part s2 (omega arith) (omega (arith, length-append body part)))))
      ])
    ]

-- Before the first chunk with a byte, empty ones are passed over.
await-Ending :
    (f e : ℕ) (s : List ℕ)
    → length s < f
    → e ≤ max_empty_chunks
    → Ending (Arrived e s) (read_loop f [] e s)
unfolding read_loop
await-Ending zero e s h few = absurd (omega arith)
await-Ending (suc f) e [] h few = unfold read_exact in tt
await-Ending (suc f) e (b ∷ []) h few = unfold read_exact in tt
await-Ending (suc f) e (b ∷ c ∷ s) h few =
    rw (read_exact-append (b ∷ c ∷ []) s)
      (after_header (of_be 0 (b ∷ c ∷ [])) refl (λ l. await-Ending f (e + 1) s (omega arith) l))
  where
    after_header :
        (n : ℕ)
        → of_be 0 (b ∷ c ∷ []) ≡ n
        → (e + 1 ≤ max_empty_chunks → Ending (Arrived (e + 1) s) (read_loop f [] (e + 1) s))
        → Ending (Arrived e (b ∷ c ∷ s)) (
            if n == 0
            then (if ltb max_empty_chunks (e + 1)
                then err too_many_empty
                else read_loop f [] (e + 1) s)
            else if ltb max_message (0 + n)
            then err too_long
            else (read_exact n s >>= λ (part, s2). read_loop f part e s2))
    after_header n q skip = elim (Bool-cases (n == 0)) [
      | inl nothing ↦ rw nothing (elim (Bool-cases (ltb max_empty_chunks (e + 1))) [
        | inl many ↦ rw many tt
        | inr more ↦ rw more (
            let z : of_be 0 (b ∷ c ∷ []) ≡ 0 = q ∙ (==_iff n 0).0 nothing in
            Ending-map (read_loop f [] (e + 1) s)
              (λ v rest g.
                let (k, body, p, l, m, r, i) = g in
                (suc k, body, keepalive z p, omega arith, m, r, i))
              (skip (ltb-false→le max_empty_chunks (e + 1) more)))
      ])
      | inr chunked ↦ rw chunked (elim (Bool-cases (ltb max_message (0 + n))) [
        | inl long ↦ rw long tt
        | inr short ↦ rw short (
            chunk-Ending n s (Arrived e (b ∷ c ∷ s)) _ (λ part s2 size split.
              begun n q chunked (ltb-false→le max_message (0 + n) short) part s2 size split))
      ])
    ]
      where
        begun :
            (n : ℕ)
            → of_be 0 (b ∷ c ∷ []) ≡ n
            → (n == 0) ≡ false
            → 0 + n ≤ max_message
            → (part s2 : List ℕ) → length part ≡ n
            → part ++ s2 ≡ s
            → Ending (Arrived e (b ∷ c ∷ s)) (read_loop f part e s2)
        begun n q chunked room [] s2 size split =
            absurd (let k = (==_iff n 0).1 (sym size) in cc (k, chunked))
        begun n q chunked room (x ∷ part) s2 size split =
            let shorter = length-append (x ∷ part) s2 in
            let total = ap length split in
            Ending-map (read_loop f (x ∷ part) e s2)
              (λ v rest g.
                let (more, p, l, r, i) = g in
                (
                  0,
                  x ∷ part ++ more,
                  message (omega arith) (
                      subst (λ (t : List ℕ). Parts (b ∷ c ∷ t) (x ∷ part ++ more) rest) split
                        (chunk (x ∷ part) (q ∙ sym size) (omega arith) p)),
                  omega arith,
                  l,
                  r,
                  i,
                ))
              (gather-Ending f x part e s2 (omega arith) (omega arith))

-- On every stream `read_message` ends with a value or with one of the errors of the source. A value is
-- that of a body of at most 16 MiB which stands on the stream in chunks, behind at most 1024 empty
-- ones; what follows it is left.
pub read_message_bounds : (s : List ℕ) → WithinLimits s (read_message s)
unfolding read_message
read_message_bounds s = await-Ending (length s + 1) 0 s (omega arith) (omega arith)

refuse_empty :
    (n f e : ℕ) (rest : List ℕ)
    → e ≤ max_empty_chunks
    → max_empty_chunks < e + n
    → n < f
    → read_loop f [] e (empty_chunks n ++ rest) ≡ err too_many_empty
unfolding read_loop
refuse_empty zero f e rest low h b = absurd (omega arith)
refuse_empty (suc n) zero e rest low h b = absurd (omega arith)
refuse_empty (suc n) (suc f) e rest low h b = elim (Bool-cases (ltb max_empty_chunks (e + 1))) [
  | inl many ↦ rw (read_exact-append (0 ∷ 0 ∷ []) (empty_chunks n ++ rest), many)
  | inr few ↦
      rw (read_exact-append (0 ∷ 0 ∷ []) (empty_chunks n ++ rest), few)
        (refuse_empty n f (e + 1) rest (omega (arith, ltb-false→le _ _ few)) (omega arith)
          (omega arith))
]

-- More than 1024 empty chunks before a message are refused, whatever follows them.
pub read_message_empty :
    (n : ℕ) (rest : List ℕ)
    → max_empty_chunks < n
    → read_message (empty_chunks n ++ rest) ≡ err too_many_empty
unfolding read_message
read_message_empty n rest h =
    refuse_empty n (length (empty_chunks n ++ rest) + 1) 0 rest (omega arith) (omega arith)
      (omega (arith, length-append (empty_chunks n) rest, length-empty_chunks n))
