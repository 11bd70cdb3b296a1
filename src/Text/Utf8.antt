-- ===== src/Text/Utf8.antt =====
-- The standard library's UTF-8 decoding as bolt/src/packstream.rs uses it: `String::from_utf8_lossy`,
-- and the validity of bytes that a Rust `String` has by construction.
use ontological_db.Base.{ℕ, zero, suc, ◌≡◌, refl, Bool, true, false, ◌&&◌, ◌||◌, arith}
use ontological_db.Base.{
  List, [], ◌∷◌, ◌++◌, take, drop, take-append-drop, leb, ◌==◌, if◌then◌else◌,
}
use ontological_db.Base.{get_or}

abbrev between : ℕ → ℕ → ℕ → Bool
between lo hi b = leb lo b && leb b hi

-- Is the second byte one that may follow the lead byte `b` of three or four bytes?
second_ok : ℕ → ℕ → Bool
second_ok b c =
    (b == 0xE0 && between 0xA0 0xBF c)
    || ((between 0xE1 0xEC b || between 0xEE 0xEF b) && between 0x80 0xBF c)
    || (b == 0xED && between 0x80 0x9F c)
    || (b == 0xF0 && between 0x90 0xBF c)
    || (between 0xF1 0xF3 b && between 0x80 0xBF c)
    || (b == 0xF4 && between 0x80 0x8F c)

-- One step over `b ∷ rest`: the bytes beyond `b` that belong to the step, and whether the step is a
-- well-formed character. A missing byte reads as 0, which continues nothing.
record Step : Type 0 where
  extra : ℕ
  valid : Bool

abbrev is_cont : List ℕ → ℕ → Bool
is_cont rest i = between 0x80 0xBF (get_or rest i 0)

three : ℕ → List ℕ → Step
three b rest =
    if second_ok b (get_or rest 0 0)
    then (if is_cont rest 1
        then record { extra = 2; valid = true }
        else record { extra = 1; valid = false })
    else record { extra = 0; valid = false }

four : ℕ → List ℕ → Step
four b rest =
    if second_ok b (get_or rest 0 0)
    then (if is_cont rest 1
        then (if is_cont rest 2
            then record { extra = 3; valid = true }
            else record { extra = 2; valid = false })
        else record { extra = 1; valid = false })
    else record { extra = 0; valid = false }

step : ℕ → List ℕ → Step
unfolding three four second_ok
step b rest =
    if leb b 0x7F
    then record { extra = 0; valid = true }
    else if between 0xC2 0xDF b
    then (if is_cont rest 0
        then record { extra = 1; valid = true }
        else record { extra = 0; valid = false })
    else if between 0xE0 0xEF b
    then three b rest
    else if between 0xF0 0xF4 b
    then four b rest
    else record { extra = 0; valid = false }

-- U+FFFD
abbrev replacement : List ℕ
replacement = 0xEF ∷ 0xBF ∷ 0xBD ∷ []

-- The first argument counts the bytes that the step before has taken.
lossy_from : ℕ → List ℕ → List ℕ
lossy_from skip [] = []
lossy_from (suc k) (b ∷ rest) = lossy_from k rest
lossy_from zero (b ∷ rest) =
    let s = step b rest in
    (if s.valid then b ∷ take s.extra rest else replacement) ++ lossy_from s.extra rest

unfoldable pub from_utf8_lossy : List ℕ → List ℕ
unfolding lossy_from step
from_utf8_lossy = lossy_from 0

valid_from : ℕ → List ℕ → Bool
valid_from skip [] = true
valid_from (suc k) (b ∷ rest) = valid_from k rest
valid_from zero (b ∷ rest) = let s = step b rest in s.valid && valid_from s.extra rest

unfoldable pub is_utf8 : List ℕ → Bool
unfolding valid_from step
is_utf8 = valid_from 0

lossy_from-valid :
    (skip : ℕ) (s : List ℕ) → valid_from skip s ≡ true → lossy_from skip s ≡ drop skip s
unfolding lossy_from valid_from
lossy_from-valid zero [] h = refl
lossy_from-valid (suc k) [] h = refl
lossy_from-valid (suc k) (b ∷ rest) h = lossy_from-valid k rest h
lossy_from-valid zero (b ∷ rest) h =
    ground
      (arith, lossy_from-valid (step b rest).extra rest, take-append-drop (step b rest).extra rest)

-- A text decodes to itself.
pub from_utf8_lossy-valid : (s : List ℕ) → is_utf8 s ≡ true → from_utf8_lossy s ≡ s
unfolding from_utf8_lossy is_utf8
from_utf8_lossy-valid s h = unfold lossy_from valid_from in lossy_from-valid 0 s h

-- "한 é🎬" and a cut sequence
utf8_runs :
    (is_utf8 (0xED ∷ 0x95 ∷ 0x9C ∷ 0x20 ∷ 0xC3 ∷ 0xA9 ∷ 0xF0 ∷ 0x9F ∷ 0x8E ∷ 0xAC ∷ []) ≡ true)
    × (is_utf8 (0xED ∷ 0xA0 ∷ 0x80 ∷ []) ≡ false)
    × (from_utf8_lossy (0x61 ∷ 0xE2 ∷ 0x82 ∷ 0x62 ∷ []) ≡ 0x61 ∷ 0xEF ∷ 0xBF ∷ 0xBD ∷ 0x62 ∷ [])
unfolding is_utf8 from_utf8_lossy
utf8_runs = (refl, refl, refl)
