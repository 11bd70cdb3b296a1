-- ===== src/PackStream/Tame.antt =====
-- What the reader of bolt/src/packstream.rs guarantees on any input, hostile ones included.
use ontological_db.Base.{ℕ, suc, ◌+◌, ◌-◌, ◌≤◌, ◌≡◌, ◌≢◌, refl, ◌∙◌, arith}
use ontological_db.Base.{
  List, [], ◌∷◌, length, length-drop, Bool-cases, inl, inr, ltb, ◌==◌, ltb-false→le,
}
use ontological_db.Base.Outcome.{Result, ok, err, ◌>>=◌}
use ontological_db.PackStream.Value.{Value, nesting}
use ontological_db.PackStream.Words.{of_be}
use ontological_db.PackStream.Reader.{
  Reader, ReadError, out_of_fuel, byte_of, max_depth, enter, leave, byte, bytes, size,
}

-- A call on `r` gave a value that `P` accepts, left the depth as it was and took `k` bytes or more;
-- or it failed, and not for want of fuel.
pub data Tame {A : Type 0} (P : A → Type 0) (k : ℕ) (r : Reader)
    : Result ReadError (A × Reader) → Type 0 where
  done :
      {a : A} {r' : Reader}
      → r'.depth ≡ r.depth
      → length r'.rest + k ≤ length r.rest
      → P a
      → Tame P k r (ok (a, r'))
  failed : {e : ReadError} → e ≢ out_of_fuel → Tame P k r (err e)

abbrev pub Any : {A : Type 0} → A → Type 0
Any a = Unit

-- A value that fits below depth `d`.
abbrev pub Fits : ℕ → Value → Type 0
Fits d v = nesting v + d ≤ max_depth

module _ {A B : Type 0} {P : A → Type 0} {Q : B → Type 0} {j : ℕ} where
  pub Tame-bind :
      (k n : ℕ) {r : Reader} {m : Result ReadError (A × Reader)}
      (f : A × Reader → Result ReadError (B × Reader))
      → Tame P j r m
      → ((a : A) (r' : Reader) → r'.depth ≡ r.depth → P a → Tame Q k r' (f (a, r')))
      → n ≤ j + k
      → Tame Q n r (m >>= f)
  Tame-bind k n f (failed e) h le = failed e
  Tame-bind k n {r = r} f (done {a} {r'} d l p) h le = again (h a r' d p)
    where
      again : {m' : Result ReadError (B × Reader)} → Tame Q k r' m' → Tame Q n r m'
      again (failed e) = failed e
      again (done d' l' q) = done (d' ∙ d) (omega arith) q

pub Tame-le :
    {A : Type 0} {P : A → Type 0} {k : ℕ} (n : ℕ) {r : Reader} {m : Result ReadError (A × Reader)}
    → n ≤ k
    → Tame P k r m
    → Tame P n r m
Tame-le n le (failed e) = failed e
Tame-le n le (done d l p) = done d (omega arith) p

byte_of-Tame : (bs : List ℕ) (d : ℕ) → Tame Any 1 (record { rest = bs; depth = d }) (byte_of bs d)
unfolding byte_of
byte_of-Tame [] d = failed (λ x. cc)
byte_of-Tame (b ∷ bs) d = done refl (omega arith) tt

pub byte-Tame : (r : Reader) → Tame Any 1 r (byte r)
unfolding byte
byte-Tame r = byte_of-Tame r.rest r.depth

bytes-Tame : (n : ℕ) (r : Reader) → Tame Any n r (bytes n r)
unfolding bytes
bytes-Tame n r = elim (Bool-cases (ltb (length r.rest) n)) [
  | inl short ↦ rw short (failed (λ x. cc))
  | inr enough ↦
      rw enough (done refl (omega (arith, ltb-false→le _ _ enough, length-drop n r.rest)) tt)
]

-- The bytes of a word, and what is made of them.
pub word-Tame :
    {A : Type 0} {P : A → Type 0} (n : ℕ) (r : Reader) (make : List ℕ → A)
    → ((b : List ℕ) → P (make b))
    → Tame P n r (bytes n r >>= λ (b, r'). ok (make b, r'))
word-Tame n r make h =
    Tame-bind 0 n _ (bytes-Tame n r) (λ b r' d p. done refl (omega arith) (h b)) (omega arith)

pub size-Tame : (m base : ℕ) (r : Reader) → Tame Any 0 r (size m base r)
unfolding size
size-Tame m base r = elim (Bool-cases (m - base == 0)) [
  | inl one ↦ rw one (Tame-le 0 (omega arith) (byte-Tame r))
  | inr more ↦ elim (Bool-cases (m - base == 1)) [
    | inl two ↦ rw (more, two) (Tame-le 0 (omega arith) (word-Tame 2 r (of_be 0) (λ _. tt)))
    | inr four ↦ rw (more, four) (Tame-le 0 (omega arith) (word-Tame 4 r (of_be 0) (λ _. tt)))
  ]
]

module _ {A B : Type 0} {Q : A → Type 0} {P : B → Type 0} (r : Reader) (make : A → B) where
  -- The end of a container that was entered from `r`: its members were read from `r1`.
  pub leave-Tame :
      {k : ℕ} (r1 : Reader) (m : Result ReadError (A × Reader))
      → r1.depth ≡ suc r.depth
      → length r1.rest ≤ length r.rest
      → ((x : A) → Q x → P (make x))
      → Tame Q k r1 m
      → Tame P 0 r (m >>= λ (x, r2). ok (make x, leave r2))
  leave-Tame r1 m e l h (failed x) = failed x
  leave-Tame r1 m e l h (done d n q) = done (omega arith) (omega arith) (h _ q)

pub enter-Tame :
    {B : Type 0} {P : B → Type 0} (r : Reader) (f : Reader → Result ReadError (B × Reader))
    → (suc r.depth ≤ max_depth → Tame P 0 r (f (record { rest = r.rest; depth = r.depth + 1 })))
    → Tame P 0 r (enter r >>= f)
unfolding enter
enter-Tame r f h = elim (Bool-cases (ltb max_depth (r.depth + 1))) [
  | inl deep ↦ rw deep (failed (λ x. cc))
  | inr fits ↦ rw fits (h (omega (arith, ltb-false→le _ _ fits)))
]
