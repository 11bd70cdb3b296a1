-- ===== src/Id.antt =====
-- engine/src/id.rs: node and edge identifiers, `[shard:9][type:18][local:36]` in an `i64`.
-- An `i32` or `i64` argument is a `ℤ`; `error!` is the `err` of a result.
mod Fields
mod Checks
use ontological_db.Base.{ℕ, ◌+◌, ◌-◌, ◌*◌, ◌^◌, Bool, ◌&&◌, if◌then◌else◌}
use ontological_db.Base.Int.{ℤ, pos, leb_ℤ, pos_part, wrap, shr}
use ontological_db.Base.Outcome.{Result, ok, err}
use Prim.Native.Nat.{bit_and, bit_or}

abbrev pub local_bits : ℕ
local_bits = 36

abbrev pub type_bits : ℕ
type_bits = 18

abbrev pub shard_bits : ℕ
shard_bits = 9

abbrev pub type_shift : ℕ
type_shift = local_bits

abbrev pub shard_shift : ℕ
shard_shift = local_bits + type_bits

abbrev pub local_mask : ℕ
local_mask = 2 ^ local_bits - 1

abbrev pub type_mask : ℕ
type_mask = 2 ^ type_bits - 1

abbrev pub shard_mask : ℕ
shard_mask = 2 ^ shard_bits - 1

-- The three `error!` calls of `make_id`.
pub data IdError : Type 0 where
  shard_out_of_range : ℤ → IdError
  type_out_of_range : ℤ → IdError
  local_exhausted : ℤ → IdError

-- `(0..=max).contains(&i)`
abbrev pub in_range : ℕ → ℤ → Bool
in_range top i = leb_ℤ (pos 0) i && leb_ℤ i (pos top)

-- `(shard << SHARD_SHIFT) | (type_id << TYPE_SHIFT) | local`, of numbers that are not negative
compose : ℕ → ℕ → ℕ → ℕ
compose shard type_id local =
    bit_or (bit_or (shard * 2 ^ shard_shift) (type_id * 2 ^ type_shift)) local

pub make_id : ℤ → ℤ → ℤ → Result IdError ℤ
unfolding compose
make_id shard type_id local =
    if in_range shard_mask shard
    then if in_range type_mask type_id
      then if in_range local_mask local
        then ok (pos (compose (pos_part shard) (pos_part type_id) (pos_part local)))
        else err (local_exhausted local)
      else err (type_out_of_range type_id)
    else err (shard_out_of_range shard)

-- `i & mask` on an `i64`: the bit pattern of `i` under the mask
abbrev and_i64 : ℤ → ℕ → ℕ
and_i64 i mask = bit_and (wrap (2 ^ 64) i) mask

pub id_type : ℤ → ℤ
id_type id = pos (and_i64 (shr id (2 ^ type_shift)) type_mask)

pub id_shard : ℤ → ℤ
id_shard id = pos (and_i64 (shr id (2 ^ shard_shift)) shard_mask)

pub id_local : ℤ → ℤ
id_local id = pos (and_i64 id local_mask)

pub with_shard : ℤ → ℤ → Result IdError ℤ
unfolding make_id id_type id_local
with_shard id shard = make_id shard (id_type id) (id_local id)
