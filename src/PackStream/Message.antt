-- ===== src/PackStream/Message.antt =====
-- Chunked messages of bolt/src/packstream.rs: `write_message` and `read_message`.
-- A stream is the list of the bytes that the peer sends; at its end `read_exact` fails.
use ontological_db.Base.{
  ℕ, zero, suc, ◌+◌, ◌*◌, ◌%◌, ◌^◌, Bool, true, false, ltb, ◌==◌, if◌then◌else◌,
}
use ontological_db.Base.{List, [], ◌∷◌, ◌++◌, length, take, drop}
use ontological_db.Base.Outcome.{Result, ok, err, ◌>>=◌}
use ontological_db.PackStream.Value.{Value}
use ontological_db.PackStream.Words.{be2, of_be}
use ontological_db.PackStream.Encode.{encode}
use ontological_db.PackStream.Reader.{ReadError, read_value}

abbrev pub chunk_size : ℕ
chunk_size = 65535

-- `body.chunks(65_535)`, each behind its length. The fuel bounds the chunks: each has a byte.
unfoldable pub frames : ℕ → List ℕ → List ℕ
frames zero body = []
frames (suc n) [] = []
frames (suc n) (b ∷ bs) =
    let chunk = take chunk_size (b ∷ bs) in
    be2 (length chunk % 2 ^ 16) ++ (chunk ++ frames n (drop chunk_size (b ∷ bs)))

unfoldable pub write_message : Value → List ℕ
write_message msg = let body = encode msg in frames (length body) body ++ 0 ∷ 0 ∷ []

abbrev pub max_message : ℕ
max_message = 16 * 1024 * 1024

abbrev pub max_empty_chunks : ℕ
max_empty_chunks = 1024

pub data MessageError : Type 0 where
  unexpected_eof too_many_empty too_long out_of_fuel : MessageError
  bad_value : ReadError → MessageError

unfoldable pub read_exact : ℕ → List ℕ → Result MessageError (List ℕ × List ℕ)
read_exact n s = if ltb (length s) n then err unexpected_eof else ok (take n s, drop n s)

abbrev pub is_empty : List ℕ → Bool
is_empty [] = true
is_empty (b ∷ bs) = false

-- The last line of `read_message`: what follows the value in the body is not looked at.
unfoldable pub decode : List ℕ → List ℕ → Result MessageError (Value × List ℕ)
decode body s = elim (read_value body) [ ok (v, r) ↦ ok (v, s) | err e ↦ err (bad_value e) ]

-- The loop, with the body so far and the empty chunks seen. Each round takes the two bytes of a
-- header, so the fuel bounds the rounds.
unfoldable pub read_loop : ℕ → List ℕ → ℕ → List ℕ → Result MessageError (Value × List ℕ)
read_loop zero body empty s = err out_of_fuel
read_loop (suc f) body empty s = do
  (hdr, s1) ← read_exact 2 s
  let n = of_be 0 hdr
  let skip = read_loop f body (empty + 1) s1
  let more = do (chunk, s2) ← read_exact n s1; read_loop f (body ++ chunk) empty s2
  if n == 0
      then (if is_empty body
          then (if ltb max_empty_chunks (empty + 1) then err too_many_empty else skip)
          else decode body s1)
      else if ltb max_message (length body + n)
      then err too_long
      else more

unfoldable pub read_message : List ℕ → Result MessageError (Value × List ℕ)
read_message s = read_loop (length s + 1) [] 0 s
