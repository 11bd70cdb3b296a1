-- ===== src/PackStream/Chunked.antt =====
-- The chunks of a message on a stream, for bolt/src/packstream.rs, as the Bolt protocol describes them.
use ontological_db.Base.{ℕ, suc, ◌≡◌, ◌<◌, List, [], ◌∷◌, ◌++◌, length}
use ontological_db.PackStream.Words.{of_be}

-- A stream of chunks, each behind its length in two bytes, up to the header of length 0: the bytes of
-- the chunks put together, and what follows.
pub data Parts : List ℕ → List ℕ → List ℕ → Type 0 where
  end_header : {b c : ℕ} {rest : List ℕ} → of_be 0 (b ∷ c ∷ []) ≡ 0 → Parts (b ∷ c ∷ rest) [] rest
  chunk :
      {b c : ℕ} (part : List ℕ) {s body rest : List ℕ}
      → of_be 0 (b ∷ c ∷ []) ≡ length part
      → 0 < length part
      → Parts s body rest
      → Parts (b ∷ c ∷ (part ++ s)) (part ++ body) rest

-- A message with a body, behind a number of empty chunks.
pub data Sent : ℕ → List ℕ → List ℕ → List ℕ → Type 0 where
  message : {s body rest : List ℕ} → 0 < length body → Parts s body rest → Sent 0 s body rest
  keepalive :
      {b c k : ℕ} {s body rest : List ℕ}
      → of_be 0 (b ∷ c ∷ []) ≡ 0
      → Sent k s body rest
      → Sent (suc k) (b ∷ c ∷ s) body rest
