-- ===== src/PackStream/Scalars.antt =====
-- Texts, floats and integers of bolt/src/packstream.rs, read back from their encodings.
use ontological_db.Base.{ℕ, suc, ◌^◌, ◌<◌, ◌≡◌, refl, ◌∙◌, arith}
use ontological_db.Base.{List, ◌∷◌, ◌++◌, length, append_assoc}
use ontological_db.Base.{Bool-cases, true, inl, inr}
use ontological_db.Base.Int.{ℤ, pos, negsuc, IsI64, wrap, signed}
use ontological_db.Base.Outcome.{ok}
use ontological_db.Text.Utf8.{is_utf8, from_utf8_lossy-valid}
use ontological_db.PackStream.Value.{Value, int, float, string}
use ontological_db.PackStream.Words.{be2, be4, be8, of_be, of_be-be2, of_be-be4, of_be-be8}
use ontological_db.PackStream.Encode.{within, encode_int, encode_string}
use ontological_db.PackStream.Reader.{
  Reader, Read, byte, dispatch, value, read_string, read_int, read_int8, read_float,
}
use ontological_db.PackStream.Headers.{bytes-append, at, string_header}

-- The casts and their inverses: the integer that an encoding of enough bytes stands for.
signed_wrap8 : (i : ℤ) → within (negsuc 127) (pos 127) i ≡ true → signed 128 (wrap 256 i) ≡ i
signed_wrap8 (pos n) h = ground arith
signed_wrap8 (negsuc n) h = ground arith

signed_wrap16 :
    (i : ℤ) → within (negsuc 32767) (pos 32767) i ≡ true → signed (2 ^ 15) (wrap (2 ^ 16) i) ≡ i
signed_wrap16 (pos n) h = ground arith
signed_wrap16 (negsuc n) h = ground arith

signed_wrap32 :
    (i : ℤ)
    → within (negsuc 2147483647) (pos 2147483647) i ≡ true
    → signed (2 ^ 31) (wrap (2 ^ 32) i) ≡ i
signed_wrap32 (pos n) h = ground arith
signed_wrap32 (negsuc n) h = ground arith

signed_wrap64 : (i : ℤ) → IsI64 i → signed (2 ^ 63) (wrap (2 ^ 64) i) ≡ i
signed_wrap64 (pos n) h = ground arith
signed_wrap64 (negsuc n) h = ground arith

wrap-lt : (m : ℕ) (i : ℤ) → 0 < m → wrap m i < m
wrap-lt m (pos n) h = grind arith
wrap-lt m (negsuc n) h = omega arith

tiny_int :
    (v : Read Value) (r : Reader) (i : ℤ)
    → within (negsuc 15) (pos 127) i ≡ true
    → dispatch v (wrap 256 i) r ≡ ok (int i, r)
unfolding dispatch
tiny_int v r (pos n) h = ground arith
tiny_int v r (negsuc n) h = ground arith

module _ (f d : ℕ) (rest : List ℕ) where
  -- A text of less than 4 GiB is read back.
  pub string_read :
      (s : List ℕ)
      → length s < 2 ^ 32
      → is_utf8 s ≡ true
      → value (suc f) (at (encode_string s ++ rest) d) ≡ ok (string s, at rest d)
  unfolding encode_string
  string_read s h u = rw append_assoc (
      string_header f d (s ++ rest) (length s) h
      ∙ unfold read_string in rw (bytes-append s rest d, from_utf8_lossy-valid s u))

  pub float_read :
      (x : ℕ) → x < 2 ^ 64 → value (suc f) (at (0xC1 ∷ be8 x ++ rest) d) ≡ ok (float x, at rest d)
  unfolding value byte dispatch read_float
  float_read x h = rw (bytes-append (be8 x) rest d, of_be-be8 x h)

  int_width :
      (width half : ℕ) (w : List ℕ) (i : ℤ)
      → length w ≡ width
      → signed half (of_be 0 w) ≡ i
      → read_int width half (at (w ++ rest) d) ≡ ok (int i, at rest d)
  unfolding read_int
  int_width width half w i e h = rw (← e, bytes-append w rest d, h)

  -- Every `i64` is read back, from the shortest form that holds it.
  pub int_read :
      (i : ℤ) → IsI64 i → value (suc f) (at (encode_int i ++ rest) d) ≡ ok (int i, at rest d)
  unfolding value byte encode_int
  int_read i h = elim (Bool-cases (within (negsuc 15) (pos 127) i)) [
    | inl t ↦ rw t (tiny_int (value f) (at rest d) i t)
    | inr t ↦ elim (Bool-cases (within (negsuc 127) (pos 127) i)) [
      | inl t8 ↦ rw (t, t8) (unfold dispatch read_int8 byte in rw (signed_wrap8 i t8))
      | inr t8 ↦ elim (Bool-cases (within (negsuc 32767) (pos 32767) i)) [
        | inl t16 ↦
            rw (t, t8, t16)
              (unfold dispatch in
                int_width 2 (2 ^ 15) (be2 (wrap (2 ^ 16) i)) i refl
                  (rw (of_be-be2 _ (wrap-lt (2 ^ 16) i (omega arith))) (signed_wrap16 i t16)))
        | inr t16 ↦ elim (Bool-cases (within (negsuc 2147483647) (pos 2147483647) i)) [
          | inl t32 ↦
              rw (t, t8, t16, t32)
                (unfold dispatch in
                  int_width 4 (2 ^ 31) (be4 (wrap (2 ^ 32) i)) i refl
                    (rw (of_be-be4 _ (wrap-lt (2 ^ 32) i (omega arith))) (signed_wrap32 i t32)))
          | inr t32 ↦
              rw (t, t8, t16, t32)
                (unfold dispatch in
                  int_width 8 (2 ^ 63) (be8 (wrap (2 ^ 64) i)) i refl
                    (rw (of_be-be8 _ (wrap-lt (2 ^ 64) i (omega arith))) (signed_wrap64 i h)))
        ]
      ]
    ]
  ]
