-- ===== src/PackStream/Checks.antt =====
-- Runs of bolt/src/packstream.rs, and its theorems at concrete inputs.
use ontological_db.Base.{◌≡◌, ◌≤◌, refl, true, arith, [], ◌∷◌, ◌++◌, replicate}
use ontological_db.Base.Int.{pos, negsuc}
use ontological_db.Base.Outcome.{ok, err}
use ontological_db.Text.Utf8.{is_utf8}
use ontological_db.PackStream.Value.{
  Value, Values, Entries, null, bool, int, float, string, list, dict, structure, nil, cons, end,
  entry, nesting, text_lt,
}
use ontological_db.PackStream.Encode.{encode, encode_header, encode_int, encode_string}
use ontological_db.PackStream.Reader.{
  Reader, value, members, read_value, reserve, byte, bytes, size, sized, read_list, enter, dispatch,
  short_read, nesting_too_deep,
}
use ontological_db.PackStream.RoundTrip.{IsEncodable, read_value-encode}
use ontological_db.PackStream.Headers.{at}
use ontological_db.PackStream.Bounds.{
  WithinBounds, read_value_bounds, reserve_bounds, nesting_refused,
}
use ontological_db.PackStream.Message.{write_message, read_message, too_many_empty}
use ontological_db.PackStream.Messages.{empty_chunks, read_message-write_message}
use ontological_db.PackStream.Streams.{WithinLimits, read_message_bounds, read_message_empty}

-- {"db": "한", "n": [-17, 1.5]}
abbrev settings : Entries
settings =
    entry (0x64 ∷ 0x62 ∷ []) (string (0xED ∷ 0x95 ∷ 0x9C ∷ []))
      (entry (0x6E ∷ []) (list (cons (int (negsuc 16)) (cons (float 0x3FF8000000000000) nil))) end)

-- A structure with a map, an integer, a flag and null.
abbrev sample : Value
sample =
    structure 0x4E (cons (dict settings) (cons (int (pos 300)) (cons (bool true) (cons null nil))))

sample-IsEncodable : IsEncodable sample
unfolding IsEncodable is_utf8 text_lt
sample-IsEncodable = (
  omega arith,
  omega arith,
  (
    (
      omega arith,
      (refl, (tt, tt)),
      (
        omega arith,
        refl,
        (omega arith, refl),
        (omega arith, refl, (omega arith, (omega arith, (omega arith, tt))), tt),
      ),
    ),
    (omega arith, (tt, (tt, tt))),
  ),
)

encode_runs :
    (encode (int (negsuc 16)) ≡ 0xC8 ∷ 0xEF ∷ []) × (encode (int (pos 300)) ≡ 0xC9 ∷ 1 ∷ 44 ∷ [])
unfolding encode encode_int
encode_runs = (refl, refl)

-- "a list of 4,294,967,295 elements", in five bytes
lying_length : read_value (0xD6 ∷ 0xFF ∷ 0xFF ∷ 0xFF ∷ 0xFF ∷ []) ≡ err short_read
unfolding read_value value dispatch byte sized size bytes read_list enter members
lying_length = refl

read_value-encode_example : read_value (encode sample ++ 9 ∷ []) ≡ ok (sample, at (9 ∷ []) 0)
read_value-encode_example =
    read_value-encode sample (9 ∷ []) sample-IsEncodable (unfold nesting in omega arith)

read_value_bounds_example : WithinBounds (0x91 ∷ 0x91 ∷ []) (read_value (0x91 ∷ 0x91 ∷ []))
read_value_bounds_example = read_value_bounds (0x91 ∷ 0x91 ∷ [])

reserve_bounds_example :
    (reserve (at (1 ∷ 2 ∷ 3 ∷ []) 2) 2 1 ≤ 3)
    × ((vs : Values) (r' : Reader)
        → members (value 64) 2 (at (1 ∷ 2 ∷ 3 ∷ []) 2) ≡ ok (vs, r')
        → reserve (at (1 ∷ 2 ∷ 3 ∷ []) 2) 2 1 ≡ 2)
reserve_bounds_example = reserve_bounds 64 2 (at (1 ∷ 2 ∷ 3 ∷ []) 2) (omega arith) (omega arith)

nesting_refused_example : read_value (replicate 65 0x91 ++ 0xC0 ∷ []) ≡ err nesting_too_deep
nesting_refused_example = nesting_refused (0xC0 ∷ [])

read_message-write_message_example :
    read_message (empty_chunks 2 ++ (write_message sample ++ 7 ∷ [])) ≡ ok (sample, 7 ∷ [])
read_message-write_message_example =
    read_message-write_message sample 2 (7 ∷ []) sample-IsEncodable (unfold nesting in omega arith)
      (unfold encode encode_header encode_int encode_string in omega arith) (omega arith)

read_message_bounds_example :
    WithinLimits (0 ∷ 1 ∷ 0xC0 ∷ 0 ∷ 0 ∷ []) (read_message (0 ∷ 1 ∷ 0xC0 ∷ 0 ∷ 0 ∷ []))
read_message_bounds_example = read_message_bounds (0 ∷ 1 ∷ 0xC0 ∷ 0 ∷ 0 ∷ [])

read_message_empty_example : read_message (empty_chunks 1025 ++ 1 ∷ []) ≡ err too_many_empty
read_message_empty_example = read_message_empty 1025 (1 ∷ []) (omega arith)
