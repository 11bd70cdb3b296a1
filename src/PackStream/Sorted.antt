-- ===== src/PackStream/Sorted.antt =====
-- The maps of bolt/src/packstream.rs: entries inserted in the order of their keys build the map.
use ontological_db.Base.{ℕ, ◌≡◌, refl, sym, ◌∙◌, ap, List, [], ◌∷◌, true, false, arith, list_eq}
use ontological_db.PackStream.Value.{
  Value, Entries, end, entry, text_lt, insert, insert_all, IsSorted, IsAbove,
}

text_lt_trans : (a b c : List ℕ) → text_lt a b ≡ true → text_lt b c ≡ true → text_lt a c ≡ true
unfolding text_lt
text_lt_trans [] [] c h k = cc
text_lt_trans [] (y ∷ ys) [] h k = cc
text_lt_trans [] (y ∷ ys) (z ∷ zs) h k = refl
text_lt_trans (x ∷ xs) [] c h k = cc
text_lt_trans (x ∷ xs) (y ∷ ys) [] h k = cc
text_lt_trans (x ∷ xs) (y ∷ ys) (z ∷ zs) h k = ground (arith, text_lt_trans xs ys zs)

text_lt_asym : (a b : List ℕ) → text_lt a b ≡ true → (text_lt b a ≡ false) × (list_eq b a ≡ false)
unfolding text_lt list_eq
text_lt_asym [] [] h = cc
text_lt_asym [] (y ∷ ys) h = (refl, refl)
text_lt_asym (x ∷ xs) [] h = cc
text_lt_asym (x ∷ xs) (y ∷ ys) h = ground (arith, text_lt_asym xs ys)

join : Entries → Entries → Entries
join end es = es
join (entry k v m) es = entry k v (join m es)

join_end : (m : Entries) → join m end ≡ m
unfolding join
join_end end = refl
join_end (entry k v m) = ap (entry k v) (join_end m)

join_assoc : (a b c : Entries) → join (join a b) c ≡ join a (join b c)
unfolding join
join_assoc end b c = refl
join_assoc (entry k v a) b c = ap (entry k v) (join_assoc a b c)

-- The first key of a sorted map is below each later one.
first_below :
    (j : List ℕ) (m : Entries) (k : List ℕ) (v : Value) (es : Entries)
    → IsAbove j (join m (entry k v es))
    → IsSorted (join m (entry k v es))
    → text_lt j k ≡ true
unfolding join
first_below j end k v es h s = h
first_below j (entry i w m) k v es h s = text_lt_trans j i k h (first_below i m k v es s.0 s.1)

insert_last :
    (k : List ℕ) (v : Value) (m es : Entries)
    → IsSorted (join m (entry k v es))
    → insert k v m ≡ join m (entry k v end)
unfolding join insert
insert_last k v end es s = refl
insert_last k v (entry j w m) es s =
    let (above, other) = text_lt_asym j k (first_below j m k v es s.0 s.1) in
    rw (above, other) (ap (entry j w) (insert_last k v m es s.1))

insert_all-join : (m es : Entries) → IsSorted (join m es) → insert_all m es ≡ join m es
unfolding insert_all
insert_all-join m end s = sym (join_end m)
insert_all-join m (entry k v es) s =
    rw (insert_last k v m es s) (insert_all-join (join m (entry k v end)) es (rw again s) ∙ again)
  where
    again : join (join m (entry k v end)) es ≡ join m (entry k v es)
    again = join_assoc m (entry k v end) es ∙ unfold join in refl

-- Inserting the entries of a sorted map one after the other builds the map.
pub insert_all-sorted : (m : Entries) → IsSorted m → insert_all end m ≡ m
unfolding join
insert_all-sorted m s = insert_all-join end m s
