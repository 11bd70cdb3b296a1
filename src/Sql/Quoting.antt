-- ===== src/Sql/Quoting.antt =====
-- Quoted texts and names are read back, for engine/src/spiu.rs.
use ontological_db.Base.{
  append-nil, subst, append_assoc, ℕ, ◌≡◌, refl, sym, ap, ◌∙◌, inl, inr, Bool, true, false, not,
  ◌&&◌, ◌==◌, ==_iff, ==-refl, if◌then◌else◌, Bool-cases, length, List, [], ◌∷◌, ◌++◌, some, none,
  suc,
}
use ontological_db.Base.Outcome.{ok, err}
use ontological_db.Sql.{
  dot, qname, split_once, nul_byte, quote, double_quote, backslash, contains_char, double, lit,
  ident,
}
use ontological_db.Sql.Syntax.{
  inside, push, body, resume, constant, escape_form, literal, name, starts,
}

closed :
    (b : Bool) (q : ℕ) (rest : List ℕ)
    → starts q rest ≡ false
    → body b q inside (q ∷ rest) ≡ some ([], rest)
unfolding body starts
closed b q [] e = rw (==-refl q) refl
closed b q (x ∷ rest) e = rw (==-refl q, e) refl

body_same :
    (b : Bool) (q : ℕ) (xs : List ℕ) → body b q inside (q ∷ q ∷ xs) ≡ push q (body b q inside xs)
unfolding body
body_same b q xs = rw (==-refl q) refl

body_other :
    (b : Bool) (q x : ℕ) (xs : List ℕ)
    → (x == q) ≡ false
    → (b && x == backslash) ≡ false
    → body b q inside (x ∷ xs) ≡ push x (body b q inside xs)
unfolding body
body_other b q x xs h n = rw (h, n) refl

double_nil : (q : ℕ) → double q [] ≡ []
unfolding double
double_nil q = refl

double_same : (q x : ℕ) (s : List ℕ) → (x == q) ≡ true → double q (x ∷ s) ≡ q ∷ q ∷ double q s
unfolding double
double_same q x s h = rw h refl

double_other : (q x : ℕ) (s : List ℕ) → (x == q) ≡ false → double q (x ∷ s) ≡ x ∷ double q s
unfolding double
double_other q x s h = rw h refl

no_backslash :
    (b : Bool) (x : ℕ) (s : List ℕ)
    → (b && contains_char (x ∷ s) backslash) ≡ false
    → ((b && x == backslash) ≡ false) × ((b && contains_char s backslash) ≡ false)
unfolding contains_char
no_backslash false x s n = (refl, refl)
no_backslash true x s n = split (x == backslash) n
  where
    split :
        (c : Bool)
        → (if c then true else contains_char s backslash) ≡ false
        → (c ≡ false) × (contains_char s backslash ≡ false)
    split true e = absurd (cc e)
    split false e = (refl, e)

body-double :
    (b : Bool) (q : ℕ) (s rest : List ℕ)
    → (b && contains_char s backslash) ≡ false
    → starts q rest ≡ false
    → body b q inside (double q s ++ q ∷ rest) ≡ some (s, rest)
unfolding push
body-double b q [] rest n e = rw (double_nil q) (closed b q rest e)
body-double b q (x ∷ s) rest n e =
    let (here, there) = no_backslash b x s n in
    let again = body-double b q s rest there e in
    elim (Bool-cases (x == q)) [
      | inl h ↦
          rw (double_same q x s h, body_same b q (double q s ++ q ∷ rest), again)
            (ap (λ z. some (z ∷ s, rest)) (sym ((==_iff x q).0 h)))
      | inr h ↦
          rw (double_other q x s h, body_other b q x (double q s ++ q ∷ rest) h here, again) refl
    ]

body_escape :
    (xs : List ℕ)
    → body true quote inside (backslash ∷ backslash ∷ xs)
      ≡ push backslash (body true quote inside xs)
unfolding body
body_escape xs = refl

-- The form with escapes, where the backslashes are doubled before the quotes.
body-double_escaped :
    (s rest : List ℕ)
    → starts quote rest ≡ false
    → body true quote inside (double quote (double backslash s) ++ quote ∷ rest) ≡ some (s, rest)
unfolding push
body-double_escaped [] rest e =
    rw (double_nil backslash, double_nil quote) (closed true quote rest e)
body-double_escaped (x ∷ s) rest e =
    let again = body-double_escaped s rest e in
    let ys = double backslash s in
    elim (Bool-cases (x == backslash)) [
      | inl h ↦
          rw
            (
              double_same backslash x s h,
              double_other quote backslash (backslash ∷ ys) refl,
              double_other quote backslash ys refl,
              body_escape (double quote ys ++ quote ∷ rest),
              again,
            )
            (ap (λ z. some (z ∷ s, rest)) (sym ((==_iff x backslash).0 h)))
      | inr h ↦ rw (double_other backslash x s h) (elim (Bool-cases (x == quote)) [
        | inl k ↦
            rw
              (
                double_same quote x ys k,
                body_same true quote (double quote ys ++ quote ∷ rest),
                again,
              )
              (ap (λ z. some (z ∷ s, rest)) (sym ((==_iff x quote).0 k)))
        | inr k ↦
            rw
              (
                double_other quote x ys k,
                body_other true quote x (double quote ys ++ quote ∷ rest) k h,
                again,
              )
              refl
      ])
    ]

constant-body :
    (f : ℕ) (b : Bool) (xs s rest : List ℕ)
    → resume false false rest ≡ none
    → body b quote inside xs ≡ some (s, rest)
    → constant (suc f) b xs ≡ some (s, rest)
unfolding constant
constant-body f b xs s rest h e = rw (constant, e, h) refl

-- Whatever text is quoted by `lit`, PostgreSQL reads the literal as exactly that text, whether or not
-- standard_conforming_strings is on, and goes on with what follows, unless a quote follows at once or
-- behind white space, comments included, with a newline in it, which would join the constant.
pub literal-lit :
    (conforming : Bool) (s rest : List ℕ)
    → starts quote rest ≡ false
    → resume false false rest ≡ none
    → literal conforming (lit s ++ rest) ≡ some (s, rest)
unfolding lit literal escape_form
literal-lit conforming s rest e j = elim (Bool-cases (contains_char s backslash)) [
  | inl h ↦
      rw (h, append_assoc (double quote (double backslash s)) (quote ∷ []) rest)
        (constant-body (length (double quote (double backslash s) ++ quote ∷ rest)) true
          (double quote (double backslash s) ++ quote ∷ rest) s rest j
          (body-double_escaped s rest e))
  | inr h ↦
      rw (h, append_assoc (double quote s) (quote ∷ []) rest)
        (constant-body (length (double quote s ++ quote ∷ rest)) (not conforming)
          (double quote s ++ quote ∷ rest) s rest j
          (body-double (not conforming) quote s rest (none_of (not conforming) h) e))
]
  where
    none_of :
        (b : Bool) → contains_char s backslash ≡ false → (b && contains_char s backslash) ≡ false
    none_of true h = h
    none_of false h = refl

-- A text without a NUL character is quoted by `ident`, and PostgreSQL reads the name as exactly that
-- text and goes on with what follows, unless a double quote follows at once; a text with a NUL
-- character is refused. This is the syntax alone: that names are cut to 63 bytes and may not be empty
-- is not in it.
pub name-ident :
    (s rest : List ℕ)
    → starts double_quote rest ≡ false
    → (contains_char s 0 ≡ false
        → (t : List ℕ) × (ident s ≡ ok t) × (name (t ++ rest) ≡ some (s, rest)))
      × (contains_char s 0 ≡ true → ident s ≡ err nul_byte)
unfolding ident name
name-ident s rest e = (
  λ h. (
    double_quote ∷ (double double_quote s ++ double_quote ∷ []),
    rw h refl,
    rw (append_assoc (double double_quote s) (double_quote ∷ []) rest)
        (body-double false double_quote s rest refl e),
  ),
  λ h. rw h refl,
)

split_once-append :
    (s rel : List ℕ) → contains_char s dot ≡ false → split_once (s ++ dot ∷ rel) ≡ some (s, rel)
unfolding split_once contains_char
split_once-append [] rel e = refl
split_once-append (x ∷ s) rel e = elim (Bool-cases (x == dot)) [
  | inl h ↦ absurd (found h e)
  | inr h ↦ rw (h, split_once-append s rel (rest h e)) refl
]
  where
    pick : Bool → Bool
    pick c = if c then true else contains_char s dot

    found : (x == dot) ≡ true → pick (x == dot) ≡ false → ⊥
    found h e = cc (ap pick (sym h) ∙ e)

    rest : (x == dot) ≡ false → pick (x == dot) ≡ false → contains_char s dot ≡ false
    rest h e = ap pick (sym h) ∙ e

qname_parts :
    (s : List ℕ) {schema rel a b : List ℕ}
    → split_once s ≡ some (schema, rel)
    → ident schema ≡ ok a
    → ident rel ≡ ok b
    → qname s ≡ ok (a ++ dot ∷ b)
unfolding qname
qname_parts s e p q = rw (qname, e, p, q) refl

-- A name with a dot, without NUL characters, is quoted by `qname` as two names with a dot between
-- them: PostgreSQL reads what stands before the first dot, a dot, and all that stands behind it.
pub name-qname :
    (schema rel : List ℕ)
    → contains_char schema dot ≡ false
    → contains_char schema 0 ≡ false
    → contains_char rel 0 ≡ false
    → (t u : List ℕ) × (qname (schema ++ dot ∷ rel) ≡ ok t)
      × (name t ≡ some (schema, dot ∷ u))
      × (name u ≡ some (rel, []))
unfolding starts
name-qname schema rel d h k =
    let (b, q, n) = (name-ident rel [] refl).0 k in
    let (a, p, m) = (name-ident schema (dot ∷ b) refl).0 h in
    (
      a ++ dot ∷ b,
      b,
      qname_parts (schema ++ dot ∷ rel) (split_once-append schema rel d) p q,
      m,
      subst (λ v. name v ≡ some (rel, [])) (append-nil b) n,
    )
