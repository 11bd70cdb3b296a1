-- ===== src/PackStream/Words.antt =====
-- Big-endian words: `to_be_bytes` and `from_be_bytes`, and the casts of `encode_int`.
use ontological_db.Base.{ℕ, ◌+◌, ◌*◌, ◌/◌, ◌%◌, ◌^◌, ◌<◌, ◌≡◌, arith}
use ontological_db.Base.{List, [], ◌∷◌}

abbrev pub be2 : ℕ → List ℕ
be2 w = (w / 256 % 256) ∷ (w % 256) ∷ []

abbrev pub be4 : ℕ → List ℕ
be4 w = (w / 2 ^ 24 % 256) ∷ (w / 2 ^ 16 % 256) ∷ be2 w

abbrev pub be8 : ℕ → List ℕ
be8 w = (w / 2 ^ 56 % 256) ∷ (w / 2 ^ 48 % 256) ∷ (w / 2 ^ 40 % 256) ∷ (w / 2 ^ 32 % 256) ∷ be4 w

-- The bytes of a word, first byte first; any number of them.
abbrev pub of_be : ℕ → List ℕ → ℕ
of_be acc [] = acc
of_be acc (b ∷ bs) = of_be (acc * 256 + b) bs

pub of_be-be2 : (w : ℕ) → w < 2 ^ 16 → of_be 0 (be2 w) ≡ w
of_be-be2 w h = omega arith

pub of_be-be4 : (w : ℕ) → w < 2 ^ 32 → of_be 0 (be4 w) ≡ w
of_be-be4 w h = omega arith

pub of_be-be8 : (w : ℕ) → w < 2 ^ 64 → of_be 0 (be8 w) ≡ w
of_be-be8 w h = omega arith
