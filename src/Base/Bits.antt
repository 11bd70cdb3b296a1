-- ===== src/Base/Bits.antt =====
-- The bit operations at variables, as arithmetic: `|` of disjoint fields, `&` with a low mask.
use Prim.Native.Nat.{ℕ, zero, suc, ◌+◌, ◌-◌, ◌*◌, ◌/◌, ◌%◌, ◌^◌, ◌≤◌, ◌<◌, min, max}
use Prim.Native.Nat.{bit_and, bit_or, digits, bit_and-bitwise, bit_or-bitwise}
use mathlib.Core.Path.{◌≡◌, refl, ◌∙◌, ap}
use native.Mathlib.Omega.{arith}
use native.Mathlib.Nat.{pow-suc, one-le-pow, div-add-mod}

field_double : (q k : ℕ) → q * 2 ^ suc k ≡ 2 * (q * 2 ^ k)
field_double q k = omega (arith, ap (λ (t : ℕ). q * t) (pow-suc 2 k))

-- `n` bounds the rounds that the digits of `a` take.
or_rounds : (n k q r a : ℕ) → a ≡ q * 2 ^ k → r < 2 ^ k → a ≤ n → digits (λ b. b) max n a r ≡ a + r
or_rounds zero k q r zero e h b = omega arith
or_rounds zero k q r (suc a) e h b = absurd (omega arith)
or_rounds (suc n) k q r zero e h b = omega arith
or_rounds (suc n) zero q r (suc a) e h b =
    omega (
      arith,
      or_rounds n 0 (suc a / 2) (r / 2) (suc a / 2) (omega arith) (omega arith) (omega arith),
    )
or_rounds (suc n) (suc k) q r (suc a) e h b = omega (
  arith,
  field_double q k,
  pow-suc 2 k,
  or_rounds n k q (r / 2) (suc a / 2) (omega (arith, field_double q k)) (omega (arith, pow-suc 2 k))
      (omega arith),
)

and_rounds :
    (n k q r a : ℕ)
    → a ≡ q * 2 ^ k + r
    → r < 2 ^ k
    → a ≤ n
    → digits (λ b. zero) min n a (2 ^ k - 1) ≡ r
and_rounds zero k q r zero e h b = omega arith
and_rounds zero k q r (suc a) e h b = absurd (omega arith)
and_rounds (suc n) k q r zero e h b = omega arith
and_rounds (suc n) zero q r (suc a) e h b =
    omega
      (arith, and_rounds n 0 (suc a / 2) 0 (suc a / 2) (omega arith) (omega arith) (omega arith))
and_rounds (suc n) (suc k) q r (suc a) e h b = omega (
  arith,
  field_double q k,
  pow-suc 2 k,
  ap (λ (t : ℕ). digits (λ b. zero) min n (suc a / 2) t) half_mask,
  and_rounds n k q (r / 2) (suc a / 2) (omega (arith, field_double q k))
      (omega (arith, pow-suc 2 k)) (omega arith),
)
  where
    half_mask : (2 ^ suc k - 1) / 2 ≡ 2 ^ k - 1
    half_mask = omega (arith, pow-suc 2 k)

-- `(q << k) | r` is a sum when `r` fits `k` bits.
pub bit_or_field : (k q r : ℕ) → r < 2 ^ k → bit_or (q * 2 ^ k) r ≡ q * 2 ^ k + r
bit_or_field k q r h =
    bit_or-bitwise (q * 2 ^ k) r ∙ or_rounds (q * 2 ^ k) k q r (q * 2 ^ k) refl h (omega arith)

-- `a & (2^k - 1)` is the remainder.
pub bit_and_low : (k a : ℕ) → bit_and a (2 ^ k - 1) ≡ a % 2 ^ k
bit_and_low k a =
    bit_and-bitwise a (2 ^ k - 1)
    ∙ and_rounds a k (a / 2 ^ k) (a % 2 ^ k) a (grind (arith, div-add-mod a (2 ^ k)))
        (grind (arith, one-le-pow k 2)) (omega arith)
