-- ===== src/PackStream/Bounds.antt =====
-- The values of bolt/src/packstream.rs are read within the nesting bound, on any input.
use ontological_db.Base.{
  ℕ, zero, suc, ◌+◌, ◌-◌, ◌/◌, ◌≤◌, ◌<◌, ◌≡◌, ◌≢◌, refl, ◌∙◌, arith, min, max,
}
use ontological_db.Base.{List, ◌++◌, length, replicate, true, false, Bool, ◌==◌, if◌then◌else◌}
use ontological_db.Base.Int.{pos, signed}
use ontological_db.Base.Outcome.{Result, ok, err, ◌>>=◌}
use ontological_db.PackStream.Value.{
  Value, Values, Entries, null, bool, int, string, list, dict, structure, nil, end, entry, insert,
  nesting, nesting_values, nesting_entries,
}
use Prim.Native.Nat.{bit_and}
use ontological_db.PackStream.Reader.{
  Reader, Read, ReadError, nesting_too_deep, out_of_fuel, unknown_marker, between, max_depth, enter,
  leave, reserve, value, members, pairs, as_key, dispatch, byte, sized, read_string, read_list,
  read_dict, read_structure, read_float, read_int, read_int8, read_value,
}
use ontological_db.PackStream.Tame.{
  enter-Tame, Tame-le, byte-Tame, Any, size-Tame, Tame, done, failed, Fits, Tame-bind, word-Tame,
  leave-Tame,
}

-- `read` reads one value at depth `d`, and takes a byte for it.
abbrev ReadsAt : ℕ → Read Value → Type 0
ReadsAt d read = (r : Reader) → r.depth ≡ d → Tame (Fits d) 1 r (read r)

as_key-ne-out_of_fuel : (v : Value) (e : ReadError) → as_key v ≡ err e → e ≢ out_of_fuel
unfolding as_key
as_key-ne-out_of_fuel (string s) e h x = cc
as_key-ne-out_of_fuel null e h x = cc
as_key-ne-out_of_fuel _ e h x = cc

nesting-insert :
    (k : List ℕ) (v : Value) (m : Entries) (b : ℕ)
    → nesting v ≤ b
    → nesting_entries m ≤ b
    → nesting_entries (insert k v m) ≤ b
unfolding nesting insert
nesting-insert k v end b h n = omega arith
nesting-insert k v (entry j w m) b h n = ground (arith, nesting-insert k v m b h (omega arith))

module _ (read : Read Value) (d : ℕ) (room : d ≤ max_depth) (tame : ReadsAt d read) where
  members-Tame :
      (n : ℕ) (r : Reader)
      → r.depth ≡ d
      → Tame (λ vs. nesting_values vs + d ≤ max_depth) n r (members read n r)
  unfolding members nesting
  members-Tame zero r e = done {a = nil} refl (omega arith) (omega arith)
  members-Tame (suc n) r e =
      Tame-bind n (suc n) _ (tame r e)
        (λ x r1 d1 p.
          Tame-bind 0 n _ (members-Tame n r1 (d1 ∙ e))
            (λ xs r2 d2 q. done refl (omega arith) (omega arith)) (omega arith))
        (omega arith)

  pairs-Tame :
      (n : ℕ) (m : Entries) (r : Reader)
      → nesting_entries m + d ≤ max_depth
      → r.depth ≡ d
      → Tame (λ es. nesting_entries es + d ≤ max_depth) 0 r (pairs read n m r)
  unfolding pairs
  pairs-Tame zero m r h e = done refl (omega arith) h
  pairs-Tame (suc n) m r h e =
      Tame-bind 0 0 _ (tame r e)
        (λ key r1 d1 p. with_key key (as_key key) refl r1 (d1 ∙ e) (pairs-Tame n)) (omega arith)
    where
      with_key :
          (key : Value) (k : Result ReadError (List ℕ))
          → as_key key ≡ k
          → (r1 : Reader) → r1.depth ≡ d
          → ((m' : Entries) (r2 : Reader)
              → nesting_entries m' + d ≤ max_depth
              → r2.depth ≡ d
              → Tame (λ es. nesting_entries es + d ≤ max_depth) 0 r2 (pairs read n m' r2))
          → Tame
              (λ es. nesting_entries es + d ≤ max_depth)
              0
              r1
              (as_key key >>= λ k. read r1 >>= λ (v, r2). pairs read n (insert k v m) r2)
      with_key key (err x) q r1 e1 again = rw q (failed (as_key-ne-out_of_fuel key x q))
      with_key key (ok k) q r1 e1 again = rw q (
          Tame-bind 0 0 _ (tame r1 e1)
            (λ v r2 d2 p.
              again (insert k v m) r2
                (omega (arith, nesting-insert k v m (max_depth - d) (omega arith) (omega arith)))
                (d2 ∙ e1))
            (omega arith))

module _ (read : Read Value) (d : ℕ) (room : d ≤ max_depth)
    (tame : suc d ≤ max_depth → ReadsAt (suc d) read) where
  read_list-Tame : (n : ℕ) (r : Reader) → r.depth ≡ d → Tame (Fits d) 0 r (read_list read n r)
  unfolding read_list nesting
  read_list-Tame n r e = enter-Tame r _ λ fits.
      leave-Tame r list _ _ (omega arith) (omega arith) (λ xs q. omega arith)
        (members-Tame read (suc d) (omega arith) (tame (omega arith)) n _ (omega arith))

  read_dict-Tame : (n : ℕ) (r : Reader) → r.depth ≡ d → Tame (Fits d) 0 r (read_dict read n r)
  unfolding read_dict nesting
  read_dict-Tame n r e = enter-Tame r _ λ fits.
      leave-Tame r dict _ _ (omega arith) (omega arith) (λ es q. omega arith)
        (pairs-Tame read (suc d) (omega arith) (tame (omega arith)) n end _ (omega arith)
          (omega arith))

  read_structure-Tame :
      (n : ℕ) (r : Reader) → r.depth ≡ d → Tame (Fits d) 0 r (read_structure read n r)
  unfolding read_structure nesting
  read_structure-Tame n r e =
      enter-Tame r _ λ fits. go fits _ _ (omega arith) (omega arith) (byte-Tame _)
    where
      go :
          suc r.depth ≤ max_depth
          → (r1 : Reader) (m : Result ReadError (ℕ × Reader)) → r1.depth ≡ suc d
          → length r1.rest ≤ length r.rest
          → Tame Any 1 r1 m
          → Tame (Fits d) 0 r (do
            (sig, r2) ← m
            (fields, r3) ← members read n r2
            ok (structure sig fields, leave r3))
      go fits r1 m d1 l (failed x) = failed x
      go fits r1 m d1 l (done {a = sig} {r' = r2} d2 l2 p) =
          leave-Tame r (structure sig) r2 _ (omega arith) (omega arith) (λ fs q. omega arith)
            (members-Tame read (suc d) (omega arith) (tame (omega arith)) n r2 (omega arith))

Tame-if :
    {A : Type 0} {P : A → Type 0} {k : ℕ} {r : Reader} (b : Bool)
    {x y : Result ReadError (A × Reader)}
    → Tame P k r x
    → Tame P k r y
    → Tame P k r (if b then x else y)
Tame-if true h k = h
Tame-if false h k = k

module _ (d : ℕ) (room : d ≤ max_depth) where
  plain : (v : Value) (r : Reader) → nesting v ≡ 0 → Tame (Fits d) 0 r (ok (v, r))
  plain v r h = done refl (omega arith) (omega arith)

  unknown : (m : ℕ) (r : Reader) → Tame (Fits d) 0 r (err (unknown_marker m))
  unknown m r = failed (λ x. cc)

  read_string-Tame : (n : ℕ) (r : Reader) → Tame (Fits d) 0 r (read_string n r)
  unfolding read_string nesting
  read_string-Tame n r = Tame-le 0 (omega arith) (word-Tame n r _ (λ b. omega arith))

  read_int-Tame : (n half : ℕ) (r : Reader) → Tame (Fits d) 0 r (read_int n half r)
  unfolding read_int nesting
  read_int-Tame n half r = Tame-le 0 (omega arith) (word-Tame n r _ (λ b. omega arith))

  read_float-Tame : (r : Reader) → Tame (Fits d) 0 r (read_float r)
  unfolding read_float nesting
  read_float-Tame r = Tame-le 0 (omega arith) (word-Tame 8 r _ (λ b. omega arith))

  read_int8-Tame : (r : Reader) → Tame (Fits d) 0 r (read_int8 r)
  unfolding read_int8 nesting
  read_int8-Tame r =
      Tame-bind 0 0 _ (byte-Tame r) (λ b r' e p. done refl (omega arith) (omega arith))
        (omega arith)

  sized-Tame :
      (read : ℕ → Read Value) (m base : ℕ) (r : Reader)
      → ((n : ℕ) (r' : Reader) → r'.depth ≡ r.depth → Tame (Fits d) 0 r' (read n r'))
      → Tame (Fits d) 0 r (sized read m base r)
  unfolding sized
  sized-Tame read m base r h =
      Tame-bind 0 0 _ (size-Tame m base r) (λ n r' e p. h n r' e) (omega arith)

  dispatch-Tame :
      (read : Read Value)
      → (suc d ≤ max_depth → ReadsAt (suc d) read)
      → (m : ℕ) (r : Reader) → r.depth ≡ d
      → Tame (Fits d) 0 r (dispatch read m r)
  unfolding dispatch nesting
  dispatch-Tame read tame m r e = Tame-if (m == 0xC0) (plain null r refl) (
      Tame-if (m == 0xC2) (plain (bool false) r refl) (
        Tame-if (m == 0xC3) (plain (bool true) r refl) (
          Tame-if (m == 0xC1) (read_float-Tame r) (
            Tame-if (m == 0xC8) (read_int8-Tame r) (
              Tame-if (m == 0xC9) (read_int-Tame 2 _ r) (
                Tame-if (m == 0xCA) (read_int-Tame 4 _ r) (
                  Tame-if (m == 0xCB) (read_int-Tame 8 _ r) (
                    Tame-if (between 0x00 0x7F m) (plain (int (pos m)) r refl) (
                      Tame-if (between 0xF0 0xFF m) (plain (int (signed 128 m)) r refl) (
                        Tame-if (between 0x80 0x8F m) (read_string-Tame (bit_and m 0x0F) r) (
                          Tame-if (between 0xD0 0xD2 m)
                            (sized-Tame read_string m 0xD0 r (λ n r' _. read_string-Tame n r'))
                            (Tame-if (between 0x90 0x9F m) (lists (bit_and m 0x0F) r e) (
                              Tame-if (between 0xD4 0xD6 m)
                                (sized-Tame (read_list read) m 0xD4 r
                                  (λ n r' d'. lists n r' (d' ∙ e)))
                                (Tame-if (between 0xA0 0xAF m) (dicts (bit_and m 0x0F) r e) (
                                  Tame-if (between 0xD8 0xDA m)
                                    (sized-Tame (read_dict read) m 0xD8 r
                                      (λ n r' d'. dicts n r' (d' ∙ e)))
                                    (Tame-if (between 0xB0 0xBF m)
                                      (read_structure-Tame read d room tame (bit_and m 0x0F) r e)
                                      (unknown m r)))))))))))))))))
    where
      lists : (n : ℕ) (r' : Reader) → r'.depth ≡ d → Tame (Fits d) 0 r' (read_list read n r')
      lists = read_list-Tame read d room tame

      dicts : (n : ℕ) (r' : Reader) → r'.depth ≡ d → Tame (Fits d) 0 r' (read_dict read n r')
      dicts = read_dict-Tame read d room tame

value-Tame : (f d : ℕ) → d ≤ max_depth → max_depth < f + d → ReadsAt d (value f)
unfolding value
value-Tame zero d room h r e = absurd (omega arith)
value-Tame (suc f) d room h r e =
    Tame-bind 0 1 _ (byte-Tame r)
      (λ m r' e' p.
        dispatch-Tame d room (value f) (λ deeper. value-Tame f (suc d) deeper (omega arith)) m r'
          (e' ∙ e))
      (omega arith)

-- What `Reader::new(buf).value()` may answer.
abbrev pub WithinBounds : List ℕ → Result ReadError (Value × Reader) → Type 0
WithinBounds buf (ok (v, r)) =
    (nesting v ≤ max_depth) × (r.depth ≡ 0) × (length r.rest < length buf)
WithinBounds buf (err e) = e ≢ out_of_fuel

-- On every input the reader ends within 65 nested calls of `value`. A value that it gives nests at
-- most 64 deep, took at least a byte and left the depth counter at 0.
pub read_value_bounds : (buf : List ℕ) → WithinBounds buf (read_value buf)
unfolding read_value
read_value_bounds buf = go (value-Tame (max_depth + 1) 0 (omega arith) (omega arith) _ refl)
  where
    go :
        {m : Result ReadError (Value × Reader)}
        → Tame (Fits 0) 1 (record { rest = buf; depth = 0 }) m
        → WithinBounds buf m
    go (failed e) = e
    go (done d l p) = (omega arith, d, omega arith)

-- The room reserved for members is bounded by the bytes that are there, whatever the length field
-- claims; and it is the full number whenever so many members can be read.
pub reserve_bounds :
    (f n : ℕ) (r : Reader)
    → r.depth ≤ max_depth
    → max_depth < f + r.depth
    → (reserve r n 1 ≤ length r.rest)
      × ((vs : Values) (r' : Reader) → members (value f) n r ≡ ok (vs, r') → reserve r n 1 ≡ n)
unfolding reserve
reserve_bounds f n r room fuel = (
  omega arith,
  λ vs r' h. go h (members-Tame (value f) r.depth room (value-Tame f r.depth room fuel) n r refl),
)
  where
    go :
        {vs : Values} {r' : Reader} {m : Result ReadError (Values × Reader)}
        → m ≡ ok (vs, r')
        → Tame (λ xs. nesting_values xs + r.depth ≤ max_depth) n r m
        → min n (length r.rest / max 1 1) ≡ n
    go h (failed e) = cc
    go h (done d l p) = omega arith

nest_step :
    (k f d : ℕ) (rest : List ℕ)
    → k + d ≡ max_depth
    → k < f
    → value f (record { rest = replicate (suc k) 0x91 ++ rest; depth = d }) ≡ err nesting_too_deep
unfolding value byte dispatch read_list enter members
nest_step k zero d rest e h = absurd (omega arith)
nest_step zero (suc f) d rest e h = ground arith
nest_step (suc k) (suc f) d rest e h =
    ground (arith, nest_step k f (d + 1) rest (omega arith) (omega arith))

-- A stream of 65 markers "a list of one element" is refused, whatever follows.
pub nesting_refused :
    (rest : List ℕ) → read_value (replicate 65 0x91 ++ rest) ≡ err nesting_too_deep
unfolding read_value
nesting_refused rest = nest_step 64 65 0 rest (omega arith) (omega arith)
