-- ===== src/PackStream/Headers.antt =====
-- What the reader of bolt/src/packstream.rs makes of one marker and the size or number behind it.
use ontological_db.Base.{ℕ, suc, ◌+◌, ◌%◌, ◌^◌, ◌≤◌, ◌<◌, ◌≡◌, ap, ◌∙◌, arith}
use ontological_db.Base.{List, ◌∷◌, ◌++◌, length, length-append, take-append, drop-append}
use ontological_db.Base.{ltb, le→ltb-false, Bool-cases, false, inl, inr, ltb→lt}
use ontological_db.Base.Bits.{bit_or_field, bit_and_low}
use ontological_db.Base.Outcome.{ok, ◌>>=◌}
use ontological_db.PackStream.Value.{Value}
use ontological_db.PackStream.Words.{be2, be4, of_be-be2, of_be-be4}
use ontological_db.PackStream.Encode.{encode_header}
use ontological_db.PackStream.Reader.{
  Reader, Read, bytes, byte, size, sized, dispatch, value, read_string, read_list, read_dict,
  read_structure,
}
use Prim.Native.Nat.{bit_and, bit_or}

abbrev pub at : List ℕ → ℕ → Reader
at bs d = record { rest = bs; depth = d }

pub bytes-append :
    (s rest : List ℕ) (d : ℕ) → bytes (length s) (at (s ++ rest) d) ≡ ok (s, at rest d)
unfolding bytes
bytes-append s rest d = rw (enough, take-append, drop-append)
  where
    enough : ltb (length (s ++ rest)) (length s) ≡ false
    enough = le→ltb-false _ _ (omega (arith, length-append s rest))

module _ (v : Read Value) (r : Reader) where
  tiny_string : (n : ℕ) → n < 16 → dispatch v (0x80 + n) r ≡ read_string n r
  unfolding dispatch
  tiny_string n h = ground (arith, bit_and_low 4 (0x80 + n))

  tiny_list : (n : ℕ) → n < 16 → dispatch v (0x90 + n) r ≡ read_list v n r
  unfolding dispatch
  tiny_list n h = ground (arith, bit_and_low 4 (0x90 + n))

  tiny_dict : (n : ℕ) → n < 16 → dispatch v (0xA0 + n) r ≡ read_dict v n r
  unfolding dispatch
  tiny_dict n h = ground (arith, bit_and_low 4 (0xA0 + n))

  pub tiny_structure : (n : ℕ) → n < 16 → dispatch v (0xB0 + n) r ≡ read_structure v n r
  unfolding dispatch
  tiny_structure n h = ground (arith, bit_and_low 4 (0xB0 + n))

  sized_string : (m : ℕ) → 0xD0 ≤ m → m < 0xD3 → dispatch v m r ≡ sized read_string m 0xD0 r
  unfolding dispatch
  sized_string m lo hi = ground arith

  sized_list : (m : ℕ) → 0xD4 ≤ m → m < 0xD7 → dispatch v m r ≡ sized (read_list v) m 0xD4 r
  unfolding dispatch
  sized_list m lo hi = ground arith

  sized_dict : (m : ℕ) → 0xD8 ≤ m → m < 0xDB → dispatch v m r ≡ sized (read_dict v) m 0xD8 r
  unfolding dispatch
  sized_dict m lo hi = ground arith

size1 : (base b d : ℕ) (rest : List ℕ) → size base base (at (b ∷ rest) d) ≡ ok (b, at rest d)
unfolding size byte
size1 base b d rest = ground arith

size2 :
    (base w d : ℕ) (rest : List ℕ)
    → w < 2 ^ 16
    → size (base + 1) base (at (be2 w ++ rest) d) ≡ ok (w, at rest d)
unfolding size
size2 base w d rest h = ground (arith, bytes-append (be2 w) rest d, of_be-be2 w h)

size4 :
    (base w d : ℕ) (rest : List ℕ)
    → w < 2 ^ 32
    → size (base + 2) base (at (be4 w ++ rest) d) ≡ ok (w, at rest d)
unfolding size
size4 base w d rest h = ground (arith, bytes-append (be4 w) rest d, of_be-be4 w h)

-- A family of markers: `tiny + n` below 16, and `base`, `base + 1`, `base + 2` before a size.
module _ (v : Read Value) (tiny base : ℕ) (read : ℕ → Read Value)
    (at_tiny : (r : Reader) (n : ℕ) → n < 16 → dispatch v (bit_or tiny n) r ≡ read n r)
    (at_sized : (r : Reader) (m : ℕ)
      → base ≤ m
      → m < base + 3
      → dispatch v m r ≡ sized read m base r) where
  -- The reader finds in a header the size that was written there.
  header_read :
      (len d : ℕ) (rest : List ℕ)
      → len < 2 ^ 32
      → (do (m, r) ← byte (at (encode_header len tiny base ++ rest) d); dispatch v m r)
        ≡ read len (at rest d)
  unfolding encode_header byte sized
  header_read len d rest h = elim (Bool-cases (ltb len 16)) [
    | inl small ↦ rw small (
        at_tiny (at rest d) (len % 256) (omega (arith, ltb→lt len 16 small))
        ∙ ap (λ t. read t (at rest d)) (omega (arith, ltb→lt len 16 small)))
    | inr b16 ↦ elim (Bool-cases (ltb len 256)) [
      | inl small ↦
          rw (b16, small)
            (at_sized _ base (omega arith) (omega arith)
              ∙ rw size1 (ap (λ t. read t (at rest d)) (omega (arith, ltb→lt len 256 small))))
      | inr b256 ↦ elim (Bool-cases (ltb len 65536)) [
        | inl small ↦
            rw (b16, b256, small)
              (at_sized _ (base + 1) (omega arith) (omega arith)
                ∙ rw (size2 base (len % 2 ^ 16) d rest (omega arith))
                    (ap (λ t. read t (at rest d)) (omega (arith, ltb→lt len 65536 small))))
        | inr b65536 ↦
            rw (b16, b256, b65536)
              (at_sized _ (base + 2) (omega arith) (omega arith)
                ∙ rw (size4 base (len % 2 ^ 32) d rest (omega arith))
                    (ap (λ t. read t (at rest d)) (omega arith)))
      ]
    ]
  ]

module _ (f d : ℕ) (rest : List ℕ) where
  pub string_header :
      (len : ℕ)
      → len < 2 ^ 32
      → value (suc f) (at (encode_header len 0x80 0xD0 ++ rest) d) ≡ read_string len (at rest d)
  unfolding value
  string_header len h =
      header_read (value f) 0x80 0xD0 read_string
        (λ r n b. rw (bit_or_field 4 8 n (omega arith)) (tiny_string (value f) r n b))
        (λ r m lo hi. sized_string (value f) r m lo hi) len d rest h

  pub list_header :
      (len : ℕ)
      → len < 2 ^ 32
      → value (suc f) (at (encode_header len 0x90 0xD4 ++ rest) d)
        ≡ read_list (value f) len (at rest d)
  unfolding value
  list_header len h =
      header_read (value f) 0x90 0xD4 (read_list (value f))
        (λ r n b. rw (bit_or_field 4 9 n (omega arith)) (tiny_list (value f) r n b))
        (λ r m lo hi. sized_list (value f) r m lo hi) len d rest h

  pub dict_header :
      (len : ℕ)
      → len < 2 ^ 32
      → value (suc f) (at (encode_header len 0xA0 0xD8 ++ rest) d)
        ≡ read_dict (value f) len (at rest d)
  unfolding value
  dict_header len h =
      header_read (value f) 0xA0 0xD8 (read_dict (value f))
        (λ r n b. rw (bit_or_field 4 10 n (omega arith)) (tiny_dict (value f) r n b))
        (λ r m lo hi. sized_dict (value f) r m lo hi) len d rest h

  pub structure_header :
      (len : ℕ)
      → len < 16
      → value (suc f) (at (bit_or 0xB0 (bit_and (len % 256) 0x0F) ∷ rest) d)
        ≡ read_structure (value f) len (at rest d)
  unfolding value byte
  structure_header len h = rw (bit_and_low 4 (len % 256)) (
      ap (λ m. dispatch (value f) m (at rest d)) marker
      ∙ tiny_structure (value f) (at rest d) len h)
    where
      marker : bit_or 0xB0 (len % 256 % 16) ≡ 0xB0 + len
      marker = bit_or_field 4 11 (len % 256 % 16) (omega arith) ∙ omega arith
