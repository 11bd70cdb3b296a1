-- ===== src/Id/Checks.antt =====
-- Runs of engine/src/id.rs, and its theorems at concrete inputs.
use ontological_db.Base.{ℕ, ◌≡◌, refl, arith}
use ontological_db.Base.Int.{ℤ, pos, negsuc}
use ontological_db.Base.Outcome.{ok, err}
use ontological_db.Id.{make_id, id_type, id_shard, id_local, with_shard, type_out_of_range}
use ontological_db.Id.Fields.{
  IsIdOf, MakeIdAnswer, make_id_fields, make_id_parts, make_id_guards, with_shard_keeps,
}

-- The identifier of the source's own test.
abbrev sample : ℕ
sample = 54048515010416916

make_sample : make_id (pos 3) (pos 4711) (pos 123456789) ≡ ok (pos 54366933106806037)
unfolding make_id
make_sample = refl

refuse_type : make_id (pos 3) (negsuc 0) (pos 5) ≡ err (type_out_of_range (negsuc 0))
unfolding make_id
refuse_type = refl

negative_id : id_type (negsuc 0) ≡ pos 262143
unfolding id_type
negative_id = refl

make_id_fields_example :
    (id : ℤ) × (make_id (pos 3) (pos 4711) (pos 123456789) ≡ ok id)
    × IsIdOf id (pos 3) (pos 4711) (pos 123456789)
make_id_fields_example =
    make_id_fields (pos 3) (pos 4711) (pos 123456789) (omega arith) (omega arith) (omega arith)

make_id_parts_example :
    make_id (id_shard (pos sample)) (id_type (pos sample)) (id_local (pos sample)) ≡ ok (pos sample)
make_id_parts_example = make_id_parts sample (omega arith)

make_id_guards_example : MakeIdAnswer (pos 600) (pos 1) (pos 1) (make_id (pos 600) (pos 1) (pos 1))
make_id_guards_example = make_id_guards (pos 600) (pos 1) (pos 1)

with_shard_keeps_example :
    (moved : ℤ) × (with_shard (pos sample) (pos 511) ≡ ok moved)
    × IsIdOf moved (pos 511) (id_type (pos sample)) (id_local (pos sample))
with_shard_keeps_example = with_shard_keeps (pos sample) (pos 511) (omega arith)
