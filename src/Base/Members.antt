-- ===== src/Base/Members.antt =====
-- Membership in a list, and its decision on numbers.
use mathlib.Core.List.{List, [], ◌∷◌, ◌++◌}
use mathlib.Core.Logic.{◌⊎◌, inl, inr}
use mathlib.Core.Bool.{Bool, true, false, ◌||◌}
use mathlib.Core.Path.{◌≡◌, refl, subst}
use Prim.Native.Nat.{ℕ}
use ontological_db.Base.Tests.{◌==◌, ==_iff, ==-refl, Bool-cases, or-cases, or-true}

pub data In {ℓ} {A : Type ℓ} (x : A) : List A → Type ℓ where
  first : {xs : List A} → In x (x ∷ xs)
  later : {y : A} {xs : List A} → In x xs → In x (y ∷ xs)

module _ {ℓ} {A : Type ℓ} where
  pub In-append : (x : A) (xs ys : List A) → In x (xs ++ ys) → In x xs ⊎ In x ys
  In-append x [] ys h = inr h
  In-append x (y ∷ xs) ys first = inl first
  In-append x (y ∷ xs) ys (later h) = shift (In-append x xs ys h)
    where
      shift : In x xs ⊎ In x ys → In x (y ∷ xs) ⊎ In x ys
      shift (inl k) = inl (later k)
      shift (inr k) = inr k

  pub In-append_left : (x : A) (xs ys : List A) → In x xs → In x (xs ++ ys)
  In-append_left x [] ys h = elim h [ ]
  In-append_left x (y ∷ xs) ys first = first
  In-append_left x (y ∷ xs) ys (later h) = later (In-append_left x xs ys h)

  pub In-append_right : (x : A) (xs ys : List A) → In x ys → In x (xs ++ ys)
  In-append_right x [] ys h = h
  In-append_right x (y ∷ xs) ys h = later (In-append_right x xs ys h)

-- What holds of the members of both parts, and of a last member, holds of the whole.
pub In-both {ℓ κ} :
    {A : Type ℓ} (P : A → Type κ) {xs ys : List A}
    → ((x : A) → In x xs → P x)
    → ((x : A) → In x ys → P x)
    → (x : A) → In x (xs ++ ys)
    → P x
In-both P {xs} {ys} f g x h = elim (In-append x xs ys h) [ inl k ↦ f x k | inr k ↦ g x k ]

pub In-one {ℓ κ} : {A : Type ℓ} (P : A → Type κ) {y : A} → P y → (x : A) → In x (y ∷ []) → P x
In-one P p x first = p
In-one P p x (later h) = elim h [ ]

pub In-snoc {ℓ κ} :
    {A : Type ℓ} (P : A → Type κ) {xs : List A} {y : A}
    → ((x : A) → In x xs → P x)
    → P y
    → (x : A) → In x (xs ++ y ∷ [])
    → P x
In-snoc P f p = In-both P f (In-one P p)

pub In-under : {x y : ℕ} {xs ys : List ℕ} → (In x xs → In x ys) → In x (y ∷ xs) → In x (y ∷ ys)
In-under f first = first
In-under f (later h) = later (f h)

unfoldable pub member : ℕ → List ℕ → Bool
member n [] = false
member n (x ∷ xs) = (n == x) || member n xs

pub member-In : (n : ℕ) (xs : List ℕ) → member n xs ≡ true → In n xs
unfolding member
member-In n [] h = absurd (cc h)
member-In n (x ∷ xs) h = elim (or-cases (n == x) (member n xs) h) [
  | inl e ↦ subst (λ y. In n (y ∷ xs)) ((==_iff n x).0 e) first
  | inr e ↦ later (member-In n xs e)
]

pub In-member : (n : ℕ) (xs : List ℕ) → In n xs → member n xs ≡ true
unfolding member
In-member n [] h = elim h [ ]
In-member n (x ∷ xs) first = rw (==-refl n) refl
In-member n (x ∷ xs) (later h) = rw (In-member n xs h) (or-true (n == x))

pub In-cases : (n : ℕ) (xs : List ℕ) → In n xs ⊎ (In n xs → ⊥)
In-cases n xs = elim (Bool-cases (member n xs)) [
  | inl e ↦ inl (member-In n xs e)
  | inr e ↦ inr (λ h. let k = In-member n xs h in cc (e, k))
]
