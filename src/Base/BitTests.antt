-- ===== src/Base/BitTests.antt =====
-- One bit of a number, and what `|` and `&` with a single bit do to it.
use Prim.Native.Nat.{ℕ, zero, suc, ◌+◌, ◌*◌, ◌/◌, ◌%◌, ◌^◌, ◌≤◌, min, max, bit_and, bit_or}
use Prim.Native.Nat.{digits, bit_and-bitwise, bit_or-bitwise}
use mathlib.Core.Path.{◌≡◌, refl, ap, ◌∙◌, sym}
use native.Mathlib.Omega.{arith}
use native.Mathlib.Nat.{pow-suc}
use ontological_db.Base.Tests.{◌==◌, if◌then◌else◌}

-- The rounds left over do not matter, once there are as many as the first number has digits.
digits_rounds :
    (z : ℕ → ℕ) (f : ℕ → ℕ → ℕ) (m n a b : ℕ) → a ≤ m → a ≤ n → digits z f m a b ≡ digits z f n a b
digits_rounds z f zero zero a b p q = refl
digits_rounds z f zero (suc n) zero b p q = refl
digits_rounds z f zero (suc n) (suc a) b p q = absurd (omega arith)
digits_rounds z f (suc m) zero zero b p q = refl
digits_rounds z f (suc m) zero (suc a) b p q = absurd (omega arith)
digits_rounds z f (suc m) (suc n) zero b p q = refl
digits_rounds z f (suc m) (suc n) (suc a) b p q =
    let half = digits_rounds z f m n (suc a / 2) (b / 2) (omega arith) (omega arith) in omega arith

halves_and : (a b : ℕ) → bit_and a b ≡ bit_and (a / 2) (b / 2) * 2 + min (a % 2) (b % 2)
halves_and zero b = let x = bit_and-bitwise 0 b in let y = bit_and-bitwise 0 (b / 2) in omega arith
halves_and (suc a) b =
    let x = bit_and-bitwise (suc a) b in
    let y = bit_and-bitwise (suc a / 2) (b / 2) in
    let z =
      digits_rounds (λ c. zero) min a (suc a / 2) (suc a / 2) (b / 2) (omega arith) (omega arith) in
    omega arith

halves_or : (a b : ℕ) → bit_or a b ≡ bit_or (a / 2) (b / 2) * 2 + max (a % 2) (b % 2)
halves_or zero b = let x = bit_or-bitwise 0 b in let y = bit_or-bitwise 0 (b / 2) in omega arith
halves_or (suc a) b =
    let x = bit_or-bitwise (suc a) b in
    let y = bit_or-bitwise (suc a / 2) (b / 2) in
    let z =
      digits_rounds (λ c. c) max a (suc a / 2) (suc a / 2) (b / 2) (omega arith) (omega arith) in
    omega arith

none_common : (n a : ℕ) → a ≤ n → bit_and a 0 ≡ 0
none_common zero a h =
    let x = halves_and a 0 in let e : a ≡ 0 = omega arith in ap (λ (y : ℕ). bit_and y 0) e
none_common (suc n) zero h = refl
none_common (suc n) (suc a) h =
    let x = halves_and (suc a) 0 in let y = none_common n (suc a / 2) (omega arith) in omega arith

none_added : (n a : ℕ) → a ≤ n → bit_or a 0 ≡ a
none_added zero a h = let e : a ≡ 0 = omega arith in ap (λ (y : ℕ). bit_or y 0) e ∙ sym e
none_added (suc n) zero h = refl
none_added (suc n) (suc a) h =
    let x = halves_or (suc a) 0 in let y = none_added n (suc a / 2) (omega arith) in omega arith

-- The bit at a place, 0 or 1.
pub bit_at : ℕ → ℕ → ℕ
bit_at zero a = a % 2
bit_at (suc k) a = bit_at k (a / 2)

pub bit_and_power : (k a : ℕ) → bit_and a (2 ^ k) ≡ bit_at k a * 2 ^ k
unfolding bit_at
bit_and_power zero a =
    let x = halves_and a 1 in let y = none_common (a / 2) (a / 2) (omega arith) in omega arith
bit_and_power (suc k) a =
    let p = pow-suc 2 k in
    let half : 2 ^ suc k / 2 ≡ 2 ^ k = omega arith in
    let x = halves_and a (2 ^ suc k) in
    let x' = rw half at x in
    let y = bit_and_power k (a / 2) in
    let z : bit_at k (a / 2) * 2 ^ suc k ≡ 2 * (bit_at k (a / 2) * 2 ^ k) =
      grind (arith, pow-suc 2 k) in
    omega arith

pub bit_at-bit_or : (j k a : ℕ) → bit_at j (bit_or a (2 ^ k)) ≡ (if j == k then 1 else bit_at j a)
unfolding bit_at
bit_at-bit_or zero zero a = let x = halves_or a 1 in ground arith
bit_at-bit_or zero (suc k) a =
    let x = halves_or a (2 ^ suc k) in let p = pow-suc 2 k in ground arith
bit_at-bit_or (suc j) zero a =
    let x = halves_or a 1 in
    let y = none_added (a / 2) (a / 2) (omega arith) in
    let half : bit_or a 1 / 2 ≡ a / 2 = omega arith in rw half (ground arith)
bit_at-bit_or (suc j) (suc k) a =
    let p = pow-suc 2 k in
    let half_power : 2 ^ suc k / 2 ≡ 2 ^ k = omega arith in
    let x = rw half_power at (halves_or a (2 ^ suc k)) in
    let half : bit_or a (2 ^ suc k) / 2 ≡ bit_or (a / 2) (2 ^ k) = omega arith in
    rw half (bit_at-bit_or j k (a / 2) ∙ same_test (bit_at j (a / 2)))
  where
    same_test : (v : ℕ) → (if j == k then 1 else v) ≡ (if suc j == suc k then 1 else v)
    same_test v = ground arith

pub bit_at_bit : (k a : ℕ) → bit_at k a ≤ 1
unfolding bit_at
bit_at_bit zero a = omega arith
bit_at_bit (suc k) a = bit_at_bit k (a / 2)

pub bit_at_zero : (k : ℕ) → bit_at k 0 ≡ 0
unfolding bit_at
bit_at_zero zero = refl
bit_at_zero (suc k) = bit_at_zero k
