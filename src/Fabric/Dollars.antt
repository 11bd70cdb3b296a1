-- ===== src/Fabric/Dollars.antt =====
-- Whether PostgreSQL reads what `dq` of engine/src/fabric/sqlish.rs quotes.
use ontological_db.Base.{
  ℕ, zero, suc, ◌+◌, ◌/◌, ◌%◌, ◌^◌, ◌≡◌, ◌≢◌, ◌≤◌, ◌<◌, refl, ◌⊎◌, inl, inr, Bool, true, false,
  ◌&&◌, ◌||◌, ◌==◌, ==_iff, ==-refl, and-both, Bool-cases, ltb, ltb→lt, if◌then◌else◌, List, [],
  ◌∷◌, ◌++◌, Option, some, none, length, drop, list_eq, list_eq_iff, All, All-append, length-append,
  arith,
}
use native.Mathlib.Nat.{pow-suc}
use ontological_db.Text.Strings.{starts_with, contains_text}
use ontological_db.Fabric.{digits_from, inner_tag, dollar_tag, dq_from, dq}

-- The documented rule: the constant ends where its tag stands next.
unfoldable pub read_to : List ℕ → List ℕ → Option (List ℕ × List ℕ)
unfolding starts_with
read_to t [] = none
read_to t (c ∷ cs) =
    let later : Option (List ℕ × List ℕ) = elim (read_to t cs) [
      | none ↦ none
      | some (s, rest) ↦ some (c ∷ s, rest)
    ] in
    if starts_with t (c ∷ cs) then some ([], drop (length t) (c ∷ cs)) else later

unfoldable pub ends_in : List ℕ → List ℕ → Bool
ends_in p [] = list_eq p []
ends_in p (b ∷ bs) = list_eq p (b ∷ bs) || ends_in p bs

-- Text without a dollar.
abbrev Plain : List ℕ → Type 0
Plain = All (λ c. c ≢ 36)

starts_with-length : (p s : List ℕ) → starts_with p s ≡ true → length p ≤ length s
unfolding starts_with
starts_with-length [] s h = omega arith
starts_with-length (x ∷ p) [] h = absurd (cc h)
starts_with-length (x ∷ p) (c ∷ s) h =
    let l = starts_with-length p s (and-both (x == c) (starts_with p s) h).1 in omega arith

contains_text-length : (p s : List ℕ) → contains_text p s ≡ true → length p ≤ length s
unfolding contains_text
contains_text-length p [] h = starts_with-length p [] h
contains_text-length p (c ∷ s) h = elim (Bool-cases (starts_with p (c ∷ s))) [
  | inl e ↦ starts_with-length p (c ∷ s) e
  | inr e ↦ let l = contains_text-length p s (rw e at h) in omega arith
]

starts_with-append : (t r : List ℕ) → starts_with t (t ++ r) ≡ true
unfolding starts_with
starts_with-append [] r = refl
starts_with-append (x ∷ t) r = rw (==-refl x, starts_with-append t r) refl

drop-append : (t r : List ℕ) → drop (length t) (t ++ r) ≡ r
drop-append [] r = refl
drop-append (x ∷ t) r = drop-append t r

-- A tag that begins in a text and ends behind it needs a dollar at both ends only.
overlap :
    (m b z : List ℕ)
    → Plain m
    → starts_with (m ++ 36 ∷ []) (b ++ 36 ∷ z) ≡ true
    → (starts_with (m ++ 36 ∷ []) b ≡ true) ⊎ (m ≡ b)
unfolding starts_with
overlap [] [] z h e = inr refl
overlap [] (c ∷ b) z h e = inl e
overlap (x ∷ m) [] z (ne, h) e =
    absurd (ne ((==_iff x 36).0 (and-both (x == 36) (starts_with (m ++ 36 ∷ []) z) e).0))
overlap (x ∷ m) (c ∷ b) z (ne, h) e =
    let (q, k) = and-both (x == c) (starts_with (m ++ 36 ∷ []) (b ++ 36 ∷ z)) e in
    elim (overlap m b z h k) [
      | inl l ↦ inl (rw (q, l) refl)
      | inr l ↦ inr (let r : x ≡ c = (==_iff x c).0 q in rw (r, l) refl)
    ]

digit-Plain : (n : ℕ) → Plain ((48 + n % 10) ∷ [])
digit-Plain n = (λ e. absurd (omega arith), tt)

digits_from-Plain : (f n : ℕ) → Plain (digits_from f n)
unfolding digits_from
digits_from-Plain zero n = tt
digits_from-Plain (suc f) n = elim (Bool-cases (ltb n 10)) [
  | inl e ↦ rw e (digit-Plain n)
  | inr e ↦ rw e (
      All-append (λ c. c ≢ 36) (digits_from f (n / 10)) _ (digits_from-Plain f (n / 10))
        (digit-Plain n))
]

inner_tag-Plain : (n : ℕ) → Plain (inner_tag n)
inner_tag-Plain zero = (λ e. absurd (omega arith), (λ e. absurd (omega arith), tt))
inner_tag-Plain (suc n) = (
  λ e. absurd (omega arith),
  (λ e. absurd (omega arith), digits_from-Plain (suc (suc n)) (suc n)),
)

length-digits_from : (k f n : ℕ) → k < f → 10 ^ k ≤ n → k < length (digits_from f n)
unfolding digits_from
length-digits_from k zero n l h = absurd (omega arith)
length-digits_from zero (suc f) n l h =
    let a = length-append (if ltb n 10 then [] else digits_from f (n / 10)) ((48 + n % 10) ∷ []) in
    omega arith
length-digits_from (suc k) (suc f) n l h = elim (Bool-cases (ltb n 10)) [
  | inl e ↦
      absurd (let a = ltb→lt n 10 e in let p = pow-suc 10 k in let q = lt_pow k in omega arith)
  | inr e ↦
      let p = pow-suc 10 k in
      let i = length-digits_from k f (n / 10) (omega arith) (omega arith) in
      let a = length-append (digits_from f (n / 10)) ((48 + n % 10) ∷ []) in rw e (omega arith)
]
  where
    lt_pow : (k : ℕ) → 0 < 10 ^ k
    lt_pow zero = omega arith
    lt_pow (suc k) = let i = lt_pow k in let p = pow-suc 10 k in omega arith

lt_pow : (k : ℕ) → k < 10 ^ k
lt_pow zero = omega arith
lt_pow (suc k) = let i = lt_pow k in let p = pow-suc 10 k in omega arith

-- A tag that is longer than the text.
unused : (n : ℕ) (s : List ℕ) → 10 ^ length s ≤ n → contains_text (dollar_tag n) s ≡ false
unused zero s h = absurd (let l = lt_pow (length s) in omega arith)
unused (suc n) s h = elim (Bool-cases (contains_text (dollar_tag (suc n)) s)) [
  | inr e ↦ e
  | inl e ↦ absurd (
      let l = lt_pow (length s) in
      let d = length-digits_from (length s) (suc (suc n)) (suc n) (omega arith) h in
      let a = length-append (inner_tag (suc n)) (36 ∷ []) in
      let c = contains_text-length (dollar_tag (suc n)) s e in omega arith)
]

dq_from_ends :
    (f n : ℕ) (s : List ℕ)
    → n ≤ 10 ^ length s
    → 10 ^ length s < f + n
    → (m : ℕ) × (dq_from f n s ≡ some (dollar_tag m ++ (s ++ dollar_tag m)))
      × (contains_text (dollar_tag m) s ≡ false)
unfolding dq_from
dq_from_ends zero n s l h = absurd (omega arith)
dq_from_ends (suc f) n s l h = elim (Bool-cases (contains_text (dollar_tag n) s)) [
  | inr e ↦ (n, rw (dq_from, e) refl, e)
  | inl e ↦
      let ne : n ≢ 10 ^ length s = (λ q. let u = unused n s (omega arith) in cc (e, u)) in
      let (m, q, c) = dq_from_ends f (suc n) s (omega arith) (omega arith) in
      (m, rw (dq_from, e) q, c)
]

or-false : (a b : Bool) → (a || b) ≡ false → (a ≡ false) × (b ≡ false)
or-false true b h = absurd (cc h)
or-false false b h = (refl, h)

-- The tag stands first where it was put.
read_to-tag :
    (m s r : List ℕ)
    → Plain m
    → contains_text (36 ∷ (m ++ 36 ∷ [])) s ≡ false
    → ends_in (36 ∷ m) s ≡ false
    → read_to (36 ∷ (m ++ 36 ∷ [])) (s ++ 36 ∷ ((m ++ 36 ∷ []) ++ r)) ≡ some (s, r)
unfolding read_to contains_text ends_in starts_with
read_to-tag m [] r p c e =
    rw (starts_with-append (m ++ 36 ∷ []) r, drop-append (m ++ 36 ∷ []) r) refl
read_to-tag m (b ∷ s) r p c e =
    let t : List ℕ = 36 ∷ (m ++ 36 ∷ []) in
    let z : List ℕ = (m ++ 36 ∷ []) ++ r in
    let (c1, c2) = or-false (starts_with t (b ∷ s)) (contains_text t s) c in
    let (e1, e2) = or-false (list_eq (36 ∷ m) (b ∷ s)) (ends_in (36 ∷ m) s) e in
    let rest = read_to-tag m s r p c2 e2 in
    elim (Bool-cases ((36 == b) && starts_with (m ++ 36 ∷ []) (s ++ 36 ∷ z))) [
      | inr h ↦ rw (h, rest) refl
      | inl h ↦
          let (q, k) = and-both (36 == b) (starts_with (m ++ 36 ∷ []) (s ++ 36 ∷ z)) h in
          absurd (elim (overlap m s z p k) [
            | inl l ↦ let y : starts_with t (b ∷ s) ≡ true = rw (q, l) refl in cc (y, c1)
            | inr l ↦
                let x : 36 ≡ b = (==_iff 36 b).0 q in
                let y = (list_eq_iff (36 ∷ m) (b ∷ s)).1 (rw (x, l) refl) in cc (y, e1)
          ])
    ]

-- dq finds a tag that the text does not have in it, puts it on both sides, and what follows is read as
-- the text and nothing more, unless the text ends with the tag less its last dollar.
pub read_to-dq :
    (s rest : List ℕ)
    → (n : ℕ) × (dq s ≡ some (dollar_tag n ++ (s ++ dollar_tag n)))
      × (contains_text (dollar_tag n) s ≡ false)
      × ((ends_in (36 ∷ inner_tag n) s ≡ true)
          ⊎ (read_to (dollar_tag n) (s ++ (dollar_tag n ++ rest)) ≡ some (s, rest)))
unfolding dq
read_to-dq s rest =
    let (n, q, c) = dq_from_ends (10 ^ length s + 1) 0 s (omega arith) (omega arith) in
    (
      n,
      q,
      c,
      elim (Bool-cases (ends_in (36 ∷ inner_tag n) s)) [
        | inl e ↦ inl e
        | inr e ↦ inr (read_to-tag (inner_tag n) s rest (inner_tag-Plain n) c e)
      ],
    )
