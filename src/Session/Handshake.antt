-- ===== src/Session/Handshake.antt =====
-- `handshake` and `speaks` of bolt/src/session.rs.
use ontological_db.Base.{
  Bool-cases, All, ℕ, ◌+◌, ◌-◌, ◌/◌, ◌%◌, ◌<◌, ◌≤◌, ◌≡◌, refl, ◌↔◌, ◌⊎◌, inl, inr, min, Bool, true,
  false, ◌&&◌, ◌==◌, leb, if◌then◌else◌, List, [], ◌∷◌, ◌++◌, take, drop, list_eq, arith,
}
use ontological_db.PackStream.Words.{of_be, be4}

abbrev pub magic : List ℕ
magic = 0x60 ∷ 0x60 ∷ 0xB0 ∷ 0x17 ∷ []

abbrev pub bolt_4_4 : ℕ
bolt_4_4 = 0x0404

abbrev pub no_version : ℕ
no_version = 0

-- A proposal may carry a range in its third byte: "4.4 down to 4.0".
unfoldable pub speaks : ℕ → Bool
speaks proposal =
    let major = proposal % 256 in
    let minor = proposal / 256 % 256 in
    let range = proposal / 65536 % 256 in
    major == 4 && leb 4 minor && leb (minor - min range minor) 4

-- `chunks(4)` of what stands behind the magic, and the search for one that we speak.
unfoldable pub find_spoken : List ℕ → Bool
unfolding speaks
find_spoken (a ∷ b ∷ c ∷ d ∷ rest) =
    let later = find_spoken rest in if speaks (of_be 0 (a ∷ b ∷ c ∷ d ∷ [])) then true else later
find_spoken _ = false

abbrev pub agreed : Bool → ℕ
agreed found = if found then bolt_4_4 else no_version

-- What is answered to the twenty bytes, nothing if the magic is wrong, and whether to go on.
unfoldable pub handshake : List ℕ → List ℕ × Bool
unfolding find_spoken
handshake preamble =
    let version = agreed (find_spoken (drop 4 preamble)) in
    if list_eq (take 4 preamble) magic
    then (be4 version, if version == no_version then false else true)
    else ([], false)

-- A proposal of the versions `major.(minor - range)` to `major.minor`; one byte is reserved.
pub record Proposal : Type 0 where
  pub reserved : ℕ
  pub range : ℕ
  pub minor : ℕ
  pub major : ℕ

abbrev pub InBytes : Proposal → Type 0
InBytes p = (p.reserved < 256) × (p.range < 256) × (p.minor < 256) × (p.major < 256)

-- The proposal covers 4.4.
abbrev pub Covers : Proposal → Type 0
Covers p = (p.major ≡ 4) × (4 ≤ p.minor) × (p.minor ≤ 4 + p.range)

abbrev pub AnyCovers : List Proposal → Type 0
AnyCovers [] = ⊥
AnyCovers (p ∷ ps) = Covers p ⊎ AnyCovers ps

unfoldable pub proposals : List Proposal → List ℕ
proposals [] = []
proposals (p ∷ ps) = p.reserved ∷ p.range ∷ p.minor ∷ p.major ∷ proposals ps

word_of : Proposal → ℕ
word_of p = of_be 0 (p.reserved ∷ p.range ∷ p.minor ∷ p.major ∷ [])

speaks_iff : (p : Proposal) → InBytes p → (speaks (word_of p) ≡ true) ↔ Covers p
unfolding speaks word_of
speaks_iff p (z, a, b, c) = ground arith

find_spoken_iff :
    (ps : List Proposal) → All InBytes ps → (find_spoken (proposals ps) ≡ true) ↔ AnyCovers ps
unfolding find_spoken proposals word_of
find_spoken_iff [] h = (λ e. cc, λ a. absurd a)
find_spoken_iff (p ∷ ps) (b, h) =
    let (to, from) = find_spoken_iff ps h in
    let (spoken, speaks_p) = speaks_iff p b in
    elim (Bool-cases (speaks (word_of p))) [
      | inl e ↦ rw e (λ _. inl (spoken e), λ _. refl)
      | inr e ↦
          rw e
            (λ q. inr (to q), λ a. elim a [ inl c ↦ absurd (cc (speaks_p c, e)) | inr k ↦ from k ])
    ]

-- For any proposals made of bytes, the client is answered 4.4, and the connection goes on, if and only if one of its proposals covers
-- 4.4; otherwise it is answered the version zero, and the connection ends.
pub handshake_iff :
    (ps : List Proposal)
    → All InBytes ps
    → let (answer, goes_on) = handshake (magic ++ proposals ps) in
      ((goes_on ≡ true) ↔ AnyCovers ps)
      × (goes_on ≡ true → answer ≡ 0 ∷ 0 ∷ 4 ∷ 4 ∷ [])
      × (goes_on ≡ false → answer ≡ 0 ∷ 0 ∷ 0 ∷ 0 ∷ [])
unfolding handshake list_eq
handshake_iff ps h =
    let (to, from) = find_spoken_iff ps h in
    elim (Bool-cases (find_spoken (proposals ps))) [
      | inl e ↦ rw e ((λ _. to e, λ _. refl), λ _. refl, λ q. cc)
      | inr e ↦ rw e ((λ q. cc, λ a. absurd (cc (from a, e))), λ q. cc, λ _. refl)
    ]
