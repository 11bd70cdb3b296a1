-- ===== src/Id/Fields.antt =====
-- The three fields of an identifier, and its composition from them (engine/src/id.rs).
use ontological_db.Base.{ℕ, ◌+◌, ◌-◌, ◌*◌, ◌/◌, ◌%◌, ◌^◌, ◌≤◌, ◌<◌, ◌≡◌, refl, ◌∙◌, ap, arith}
use ontological_db.Base.{◌⊎◌, inl, inr, true, false}
use ontological_db.Base.Int.{ℤ, pos, negsuc, ◌≤ℤ◌, IsI64}
use ontological_db.Base.Bits.{bit_or_field, bit_and_low}
use ontological_db.Base.Outcome.{Result, ok, err}
use ontological_db.Id.{
  IdError, shard_out_of_range, type_out_of_range, local_exhausted, shard_mask, type_mask,
  local_mask, in_range, compose, make_id, id_type, id_shard, id_local, with_shard,
}

-- The range that a guard `(0..=top).contains(&i)` of `make_id` lets through.
abbrev pub Within : ℕ → ℤ → Type 0
Within top (pos n) = n ≤ top
Within top (negsuc n) = ⊥

abbrev pub IsShard : ℤ → Type 0
IsShard = Within shard_mask

abbrev pub IsTypeId : ℤ → Type 0
IsTypeId = Within type_mask

abbrev pub IsLocal : ℤ → Type 0
IsLocal = Within local_mask

in_range_cases :
    (top : ℕ) (i : ℤ)
    → ((in_range top i ≡ true) × Within top i) ⊎ ((in_range top i ≡ false) × ¬ (Within top i))
in_range_cases top (pos n) = ground arith
in_range_cases top (negsuc n) = inr (ground arith, λ h. h)

module _ (s t l : ℕ) (ht : t < 2 ^ 18) (hl : l < 2 ^ 36) where
  compose_sum : compose s t l ≡ s * 2 ^ 54 + t * 2 ^ 36 + l
  unfolding compose
  compose_sum =
      ground
        (arith, bit_or_field 54 s (t * 2 ^ 36) (omega arith), bit_or_field 36 (s * 2 ^ 18 + t) l hl)

-- What a field reads from an identifier, a negative one included.
type_of_pos : (n : ℕ) → id_type (pos n) ≡ pos (n / 2 ^ 36 % 2 ^ 64 % 2 ^ 18)
unfolding id_type
type_of_pos n = ap pos (bit_and_low 18 (n / 2 ^ 36 % 2 ^ 64))

shard_of_pos : (n : ℕ) → id_shard (pos n) ≡ pos (n / 2 ^ 54 % 2 ^ 64 % 2 ^ 9)
unfolding id_shard
shard_of_pos n = ap pos (bit_and_low 9 (n / 2 ^ 54 % 2 ^ 64))

local_of_pos : (n : ℕ) → id_local (pos n) ≡ pos (n % 2 ^ 64 % 2 ^ 36)
unfolding id_local
local_of_pos n = ap pos (bit_and_low 36 (n % 2 ^ 64))

IsTypeId-id_type : (id : ℤ) → IsTypeId (id_type id)
unfolding id_type
IsTypeId-id_type (pos n) = omega (arith, bit_and_low 18 (n / 2 ^ 36 % 2 ^ 64))
IsTypeId-id_type (negsuc n) = omega (arith, bit_and_low 18 (2 ^ 64 - 1 - n / 2 ^ 36 % 2 ^ 64))

IsLocal-id_local : (id : ℤ) → IsLocal (id_local id)
unfolding id_local
IsLocal-id_local (pos n) = omega (arith, bit_and_low 36 (n % 2 ^ 64))
IsLocal-id_local (negsuc n) = omega (arith, bit_and_low 36 (2 ^ 64 - 1 - n % 2 ^ 64))

make_id_runs :
    (s t l : ℕ)
    → s ≤ shard_mask
    → t ≤ type_mask
    → l ≤ local_mask
    → make_id (pos s) (pos t) (pos l) ≡ ok (pos (s * 2 ^ 54 + t * 2 ^ 36 + l))
unfolding make_id
make_id_runs s t l hs ht hl = ground (arith, compose_sum s t l (omega arith) (omega arith))

-- A successful `make_id`: the identifier and its fields.
pub record IsIdOf (id shard type_id local : ℤ) : Type 0 where
  pub positive : pos 0 ≤ℤ id
  pub fits : IsI64 id
  pub at_shard : id_shard id ≡ shard
  pub at_type : id_type id ≡ type_id
  pub at_local : id_local id ≡ local

-- In range, `make_id` composes an `i64` that is not negative, and the three accessors read the
-- shard, the type and the local id back from it.
pub make_id_fields :
    (s t l : ℤ)
    → IsShard s
    → IsTypeId t
    → IsLocal l
    → (id : ℤ) × (make_id s t l ≡ ok id) × IsIdOf id s t l
make_id_fields (pos s) (pos t) (pos l) hs ht hl = (
  pos n,
  make_id_runs s t l hs ht hl,
  record {
    positive = omega arith;
    fits = omega arith;
    at_shard = shard_of_pos n ∙ ap pos (omega arith);
    at_type = type_of_pos n ∙ ap pos (omega arith);
    at_local = local_of_pos n ∙ ap pos (omega arith);
  },
)
  where
    n : ℕ
    n = s * 2 ^ 54 + t * 2 ^ 36 + l
make_id_fields (negsuc s) t l hs ht hl = absurd hs
make_id_fields (pos s) (negsuc t) l hs ht hl = absurd ht
make_id_fields (pos s) (pos t) (negsuc l) hs ht hl = absurd hl

-- Every `i64` that is not negative is composed again from its own three fields.
pub make_id_parts :
    (n : ℕ)
    → n < 2 ^ 63
    → make_id (id_shard (pos n)) (id_type (pos n)) (id_local (pos n)) ≡ ok (pos n)
make_id_parts n h =
    rw (shard_of_pos, type_of_pos, local_of_pos)
      (make_id_runs (n / 2 ^ 54 % 2 ^ 64 % 2 ^ 9) (n / 2 ^ 36 % 2 ^ 64 % 2 ^ 18)
          (n % 2 ^ 64 % 2 ^ 36) (omega arith) (omega arith) (omega arith)
        ∙ ap (λ (t : ℕ). ok (pos t)) (omega arith))

-- What each of the three guards of `make_id` answers, in their order.
abbrev pub MakeIdAnswer : ℤ → ℤ → ℤ → Result IdError ℤ → Type 0
MakeIdAnswer s t l (ok id) = IsShard s × IsTypeId t × IsLocal l
MakeIdAnswer s t l (err (shard_out_of_range i)) = (i ≡ s) × ¬ (IsShard s)
MakeIdAnswer s t l (err (type_out_of_range i)) = (i ≡ t) × IsShard s × ¬ (IsTypeId t)
MakeIdAnswer s t l (err (local_exhausted i)) = (i ≡ l) × IsShard s × IsTypeId t × ¬ (IsLocal l)

-- `make_id` succeeds only in range, and otherwise reports the first part that is out of range.
pub make_id_guards : (s t l : ℤ) → MakeIdAnswer s t l (make_id s t l)
unfolding make_id
make_id_guards s t l = elim (in_range_cases shard_mask s) [
  | inr (es, hs) ↦ rw es (refl, hs)
  | inl (es, hs) ↦ elim (in_range_cases type_mask t) [
    | inr (et, ht) ↦ rw (es, et) (refl, hs, ht)
    | inl (et, ht) ↦ elim (in_range_cases local_mask l) [
      | inr (el, hl) ↦ rw (es, et, el) (refl, hs, ht, hl)
      | inl (el, hl) ↦ rw (es, et, el) (hs, ht, hl)
    ]
  ]
]

-- Re-homing any `i64` onto a shard in range sets the shard and keeps the type and the local id.
pub with_shard_keeps :
    (id shard : ℤ)
    → IsShard shard
    → (moved : ℤ) × (with_shard id shard ≡ ok moved) × IsIdOf moved shard (id_type id) (id_local id)
unfolding with_shard
with_shard_keeps id shard h =
    make_id_fields shard (id_type id) (id_local id) h (IsTypeId-id_type id) (IsLocal-id_local id)
