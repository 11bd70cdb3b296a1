-- ===== src/PackStream/Messages.antt =====
-- A message that bolt/src/packstream.rs writes is read back, and what its reader does on any stream.
use ontological_db.Base.{
  ℕ, zero, suc, ◌+◌, ◌-◌, ◌%◌, ◌^◌, ◌≤◌, ◌<◌, ◌≡◌, refl, ap, ap₂, ◌∙◌, arith, min,
}
use ontological_db.Base.{true, false, ltb, ◌==◌, le→ltb-false}
use ontological_db.Base.{
  List, [], ◌∷◌, ◌++◌, length, take, drop, length-append, length-take, length-drop, take-append,
  drop-append, take-append-drop, append_assoc, append-nil,
}
use ontological_db.Base.Outcome.{ok, err}
use ontological_db.PackStream.Value.{
  Value, null, bool, int, float, string, list, dict, structure, nesting,
}
use ontological_db.PackStream.Words.{be2, of_be, of_be-be2}
use ontological_db.Base.Int.{ℤ}
use ontological_db.PackStream.Encode.{encode, encode_string, encode_int, encode_header}
use ontological_db.PackStream.Reader.{Reader, ReadError, read_value, max_depth}
use ontological_db.PackStream.RoundTrip.{IsEncodable, read_value-encode}
use ontological_db.PackStream.Message.{
  bad_value, chunk_size, frames, write_message, max_message, max_empty_chunks, read_exact, decode,
  read_loop, read_message,
}

pub read_exact-append : (s rest : List ℕ) → read_exact (length s) (s ++ rest) ≡ ok (s, rest)
unfolding read_exact
read_exact-append s rest = rw (enough, take-append, drop-append)
  where
    enough : ltb (length (s ++ rest)) (length s) ≡ false
    enough = le→ltb-false _ _ (omega (arith, length-append s rest))

-- One round of the loop on a chunk that is not empty, and on the empty chunk that ends a message.
chunk_round :
    (f e : ℕ) (body chunk rest : List ℕ)
    → 0 < length chunk
    → length chunk ≤ chunk_size
    → length body + length chunk ≤ max_message
    → read_loop (suc f) body e (be2 (length chunk % 2 ^ 16) ++ (chunk ++ rest))
      ≡ read_loop f (body ++ chunk) e rest
unfolding read_loop
chunk_round f e body chunk rest some_bytes short fits =
    rw (read_exact-append (be2 (length chunk % 2 ^ 16)) (chunk ++ rest), size, nonzero, within)
      (rw (read_exact-append chunk rest))
  where
    size : of_be 0 (be2 (length chunk % 2 ^ 16)) ≡ length chunk
    size = of_be-be2 _ (omega arith) ∙ omega arith

    nonzero : (length chunk == 0) ≡ false
    nonzero = ground arith

    within : ltb max_message (length body + length chunk) ≡ false
    within = le→ltb-false _ _ fits

last_round :
    (f e b : ℕ) (bs rest : List ℕ)
    → read_loop (suc f) (b ∷ bs) e (0 ∷ 0 ∷ rest) ≡ decode (b ∷ bs) rest
unfolding read_loop
last_round f e b bs rest = rw (read_exact-append (0 ∷ 0 ∷ []) rest)

frames_read :
    (n f e : ℕ) (front todo rest : List ℕ)
    → length todo ≤ n
    → length todo < f
    → length front + length todo ≤ max_message
    → 0 < length front + length todo
    → read_loop f front e (frames n todo ++ 0 ∷ 0 ∷ rest) ≡ decode (front ++ todo) rest
unfolding frames
frames_read n zero e front todo rest hn hf fits some_bytes = absurd (omega arith)
frames_read zero (suc f) e [] [] rest hn hf fits some_bytes = absurd (omega arith)
frames_read zero (suc f) e (b ∷ bs) [] rest hn hf fits some_bytes =
    rw append-nil (last_round f e b bs rest)
frames_read zero (suc f) e front (t ∷ ts) rest hn hf fits some_bytes = absurd (omega arith)
frames_read (suc n) (suc f) e [] [] rest hn hf fits some_bytes = absurd (omega arith)
frames_read (suc n) (suc f) e (b ∷ bs) [] rest hn hf fits some_bytes =
    rw append-nil (last_round f e b bs rest)
frames_read (suc n) (suc f) e front (t ∷ ts) rest hn hf fits some_bytes =
    rw (append_assoc, append_assoc)
      (chunk_round f e front chunk (frames n later ++ 0 ∷ 0 ∷ rest) (omega (arith, took))
          (omega (arith, took)) (omega (arith, took))
        ∙ frames_read n f e (front ++ chunk) later rest (omega (arith, left)) (omega (arith, left))
            (omega (arith, left, took, length-append front chunk))
            (omega (arith, left, took, length-append front chunk))
        ∙ ap (λ bytes. decode bytes rest)
            (append_assoc front chunk later
              ∙ ap (λ bytes. front ++ bytes) (take-append-drop chunk_size (t ∷ ts))))
  where
    chunk : List ℕ
    chunk = take chunk_size (t ∷ ts)

    later : List ℕ
    later = drop chunk_size (t ∷ ts)

    took : length chunk ≡ min chunk_size (suc (length ts))
    took = length-take chunk_size (t ∷ ts)

    left : length later ≡ suc (length ts) - chunk_size
    left = length-drop chunk_size (t ∷ ts)

length-frames : (n : ℕ) (todo : List ℕ) → length todo ≤ n → length todo ≤ length (frames n todo)
unfolding frames
length-frames zero todo h = omega arith
length-frames (suc n) [] h = omega arith
length-frames (suc n) (t ∷ ts) h = omega (
  arith,
  length-append (take chunk_size (t ∷ ts)) (frames n (drop chunk_size (t ∷ ts))),
  length-take chunk_size (t ∷ ts),
  length-drop chunk_size (t ∷ ts),
  length-frames n (drop chunk_size (t ∷ ts)) (omega (arith, length-drop chunk_size (t ∷ ts))),
)

length-encode_header_pos : (len tiny base : ℕ) → 0 < length (encode_header len tiny base)
unfolding encode_header
length-encode_header_pos len tiny base = ground arith

length-encode_int_pos : (i : ℤ) → 0 < length (encode_int i)
unfolding encode_int
length-encode_int_pos i = ground arith

append_pos : (xs ys : List ℕ) → 0 < length xs → 0 < length (xs ++ ys)
append_pos xs ys h = omega (arith, length-append xs ys)

length-encode_pos : (v : Value) → 0 < length (encode v)
unfolding encode encode_string
length-encode_pos null = omega arith
length-encode_pos (bool true) = omega arith
length-encode_pos (bool false) = omega arith
length-encode_pos (int i) = length-encode_int_pos i
length-encode_pos (float x) = omega arith
length-encode_pos (string s) = append_pos _ _ (length-encode_header_pos _ _ _)
length-encode_pos (list xs) = append_pos _ _ (length-encode_header_pos _ _ _)
length-encode_pos (dict m) = append_pos _ _ (length-encode_header_pos _ _ _)
length-encode_pos (structure sig fs) = omega arith

pub decode_ok :
    (body s : List ℕ) {v : Value} {r : Reader}
    → read_value body ≡ ok (v, r)
    → decode body s ≡ ok (v, s)
unfolding decode
decode_ok body s h = rw (h, decode)

pub decode_err :
    (body s : List ℕ) {e : ReadError} → read_value body ≡ err e → decode body s ≡ err (bad_value e)
unfolding decode
decode_err body s h = rw (h, decode)

-- `n` empty chunks, such as a peer sends to keep the connection alive
abbrev pub empty_chunks : ℕ → List ℕ
empty_chunks zero = []
empty_chunks (suc n) = 0 ∷ 0 ∷ empty_chunks n

pub length-empty_chunks : (n : ℕ) → length (empty_chunks n) ≡ n + n
length-empty_chunks zero = refl
length-empty_chunks (suc n) = omega (arith, length-empty_chunks n)

skip_empty :
    (n f g e : ℕ) (s : List ℕ)
    → f ≡ n + g
    → e + n ≤ max_empty_chunks
    → read_loop f [] e (empty_chunks n ++ s) ≡ read_loop g [] (e + n) s
unfolding read_loop
skip_empty zero f g e s h b = ap₂ (λ (x y : ℕ). read_loop x [] y s) (omega arith) (omega arith)
skip_empty (suc n) zero g e s h b = absurd (omega arith)
skip_empty (suc n) (suc f) g e s h b =
    rw
      (
        read_exact-append (0 ∷ 0 ∷ []) (empty_chunks n ++ s),
        le→ltb-false max_empty_chunks (e + 1) (omega arith),
      )
      (skip_empty n f g (e + 1) s (omega arith) (omega arith)
        ∙ ap (λ (y : ℕ). read_loop g [] y s) (omega arith))

-- A message is read back from the chunks that it was written in, behind up to 1024 empty chunks, and
-- what follows it on the stream is left: for every encodable value that nests at most 64 deep and
-- encodes to 16 MiB at most.
pub read_message-write_message :
    (v : Value) (n : ℕ) (rest : List ℕ)
    → IsEncodable v
    → nesting v ≤ max_depth
    → length (encode v) ≤ max_message
    → n ≤ max_empty_chunks
    → read_message (empty_chunks n ++ (write_message v ++ rest)) ≡ ok (v, rest)
unfolding read_message write_message
read_message-write_message v n rest h deep fits keepalive = rw append_assoc (
    skip_empty n (length (empty_chunks n ++ stream) + 1) (n + (length stream + 1)) 0 stream sizes
      (omega arith)
    ∙ frames_read size (n + (length stream + 1)) (0 + n) [] (encode v) rest (omega arith) enough
        (omega arith) (omega (arith, length-encode_pos v))
    ∙ decode_ok (encode v) rest (rw append-nil at (read_value-encode v [] h deep)))
  where
    size : ℕ
    size = length (encode v)

    stream : List ℕ
    stream = frames size (encode v) ++ 0 ∷ 0 ∷ rest

    sizes : length (empty_chunks n ++ stream) + 1 ≡ n + (n + (length stream + 1))
    sizes = omega (arith, length-append (empty_chunks n) stream, length-empty_chunks n)

    enough : length (encode v) < n + (length stream + 1)
    enough = omega (
      arith,
      length-frames size (encode v) (omega arith),
      length-append (frames size (encode v)) (0 ∷ 0 ∷ rest),
    )
