-- ===== src/Traverse/Marks.antt =====
-- The bit set of `og_csr_reach` in engine/src/storage/traverse.rs.
use ontological_db.Base.{
  ℕ, zero, suc, ◌*◌, ◌/◌, ◌%◌, ◌^◌, ◌≡◌, ◌≢◌, ◌≤◌, ◌<◌, refl, sym, ap, subst, inl, inr, Bool, false,
  Bool-cases, not, ◌||◌, ◌==◌, ==_iff, if◌then◌else◌, List, length, get_or, set, replicate, arith,
}
use Prim.Native.Nat.{bit_or}
use native.Mathlib.Nat.{one-le-pow}
use ontological_db.Base.BitTests.{bit_at, bit_and_power, bit_at-bit_or, bit_at_bit, bit_at_zero}
use ontological_db.Traverse.Counting.{length-set, get_or-set, get_or-set_other, get_or-replicate}
use ontological_db.Traverse.CsrReach.{mark}

-- The bit of a position is set.
unfoldable pub is_marked : List ℕ → ℕ → Bool
is_marked seen i = bit_at (i % 64) (get_or seen (i / 64) 0) == 1

one_bit : (b p : ℕ) → b ≤ 1 → 1 ≤ p → (b * p == 0) ≡ not (b == 1)
one_bit zero p h k = ground arith
one_bit (suc zero) p h k = ground arith
one_bit (suc (suc b)) p h k = absurd (omega arith)

pub mark_fresh : (seen : List ℕ) (i : ℕ) → (mark seen i).0 ≡ not (is_marked seen i)
unfolding mark is_marked
mark_fresh seen i = rw (bit_and_power (i % 64) (get_or seen (i / 64) 0)) (
    one_bit (bit_at (i % 64) (get_or seen (i / 64) 0)) (2 ^ (i % 64))
      (bit_at_bit (i % 64) (get_or seen (i / 64) 0)) (one-le-pow (i % 64) 2 (omega arith)))

pub length-mark : (seen : List ℕ) (i : ℕ) → length (mark seen i).1 ≡ length seen
unfolding mark
length-mark seen i = length-set seen (i / 64) (bit_or (get_or seen (i / 64) 0) (2 ^ (i % 64)))

pub is_marked-mark :
    (seen : List ℕ) (i j : ℕ)
    → i < length seen * 64
    → is_marked (mark seen i).1 j ≡ ((j == i) || is_marked seen j)
unfolding mark is_marked
is_marked-mark seen i j h = elim (Bool-cases (i / 64 == j / 64)) [
  | inr e ↦
      let apart : i / 64 ≢ j / 64 = λ q. let k = (==_iff (i / 64) (j / 64)).1 q in cc (k, e) in
      let other : (j == i) ≡ false = ground arith in
      rw (get_or-set_other seen (i / 64) (j / 64) (bit_or v (2 ^ (i % 64))) apart, other) refl
  | inl e ↦
      let q : i / 64 ≡ j / 64 = (==_iff (i / 64) (j / 64)).0 e in
      let at_j : get_or (set seen (i / 64) set_bit) (j / 64) 0 ≡ set_bit =
        subst (λ (x : ℕ). get_or (set seen (i / 64) set_bit) x 0 ≡ set_bit) q
          (get_or-set seen (i / 64) set_bit (omega arith)) in
      let v_j : get_or seen (j / 64) 0 ≡ v = ap (λ (x : ℕ). get_or seen x 0) (sym q) in
      rw (at_j, v_j, bit_at-bit_or (j % 64) (i % 64) v) (same_word q (bit_at (j % 64) v))
]
  where
    v : ℕ
    v = get_or seen (i / 64) 0

    set_bit : ℕ
    set_bit = bit_or v (2 ^ (i % 64))

    same_word :
        i / 64 ≡ j / 64
        → (b : ℕ) → ((if j % 64 == i % 64 then 1 else b) == 1) ≡ ((j == i) || (b == 1))
    same_word q b = ground arith

pub is_marked_zeros : (words j : ℕ) → is_marked (replicate words 0) j ≡ false
unfolding is_marked
is_marked_zeros words j = rw (get_or-replicate words (j / 64), bit_at_zero (j % 64)) refl
