-- ===== src/Utils/Identity.antt =====
-- The form of the UUIDs, and how few of their digits rand() decides.
use ch_cpp_utils.Base.{
  ℕ, zero, suc, ◌+◌, ◌%◌, ◌<◌, ◌≡◌, refl, ap, Bool, true, false, ◌||◌, ◌&&◌, [], ◌∷◌, Str, length,
  leb, nat_beq, if◌then◌else◌, arith, Bool-cases, inl, inr, ◌⊎◌, subst, sym,
}
use ch_cpp_utils.Utils.Uuid.{
  draw, is_used_up, shift, char_at, is_dash, digit_at, uuid_from, generate_uuid,
}

abbrev pub is_upper_hex : ℕ → Bool
is_upper_hex c = (leb b'0' c && leb c b'9') || (leb b'A' c && leb c b'F')

-- 8, 9, A or B
abbrev pub is_variant : ℕ → Bool
is_variant c = nat_beq c b'8' || (nat_beq c b'9' || (nat_beq c b'A' || nat_beq c b'B'))

-- The form of a UUID of version 4, by position.
abbrev pub is_allowed : ℕ → ℕ → Bool
is_allowed i c =
    if is_dash i
    then nat_beq c b'-'
    else if nat_beq i 14
    then nat_beq c b'4'
    else if nat_beq i 19
    then is_variant c
    else is_upper_hex c

hex_of : (n : ℕ) → n < 16 → is_upper_hex (char_at n) ≡ true
hex_of n h = ground arith

variant_of : (m : ℕ) → m < 4 → is_variant (char_at (8 + m)) ≡ true
variant_of m h = ground arith

digit_at-allowed :
    (i rnd : ℕ) → is_dash i ≡ false → nat_beq i 14 ≡ false → is_allowed i (digit_at i rnd) ≡ true
digit_at-allowed i rnd d f = elim (Bool-cases (nat_beq i 19)) [
  | inl e ↦ rw (d, f, e) (variant_of (rnd % 4) (omega arith))
  | inr e ↦ rw (d, f, e) (hex_of (rnd % 16) (omega arith))
]

-- Each character of a text, the first one at `i`, is one of the form.
abbrev pub Fits : ℕ → Str → Type 0
Fits i [] = Unit
Fits i (c ∷ s) = (is_allowed i c ≡ true) × Fits (suc i) s

dash_allowed : (i : ℕ) → is_dash i ≡ true → is_allowed i b'-' ≡ true
dash_allowed i d = rw d refl

four_allowed : (i : ℕ) → is_dash i ≡ false → nat_beq i 14 ≡ true → is_allowed i b'4' ≡ true
four_allowed i d f = rw (d, f) refl

-- Where the loop is at a digit.
module _ (rand : ℕ → ℕ) (n i k rnd : ℕ) (d : is_dash i ≡ false) (f : nat_beq i 14 ≡ false) where
  uuid_from-drawn :
      is_used_up rnd ≡ true
      → uuid_from rand (suc n) i k rnd
        ≡ digit_at i (shift (draw (rand k)))
          ∷ uuid_from rand n (suc i) (suc k) (shift (draw (rand k)))
  unfolding uuid_from
  uuid_from-drawn u = rw (d, f, u) refl

  uuid_from-shifted :
      is_used_up rnd ≡ false
      → uuid_from rand (suc n) i k rnd
        ≡ digit_at i (shift rnd) ∷ uuid_from rand n (suc i) k (shift rnd)
  unfolding uuid_from
  uuid_from-shifted u = rw (d, f, u) refl

  pub uuid_from-cases :
      (uuid_from rand (suc n) i k rnd
        ≡ digit_at i (shift (draw (rand k)))
          ∷ uuid_from rand n (suc i) (suc k) (shift (draw (rand k))))
      ⊎ (uuid_from rand (suc n) i k rnd
          ≡ digit_at i (shift rnd) ∷ uuid_from rand n (suc i) k (shift rnd))
  uuid_from-cases = elim (Bool-cases (is_used_up rnd)) [
    | inl u ↦ inl (uuid_from-drawn u)
    | inr u ↦ inr (uuid_from-shifted u)
  ]

uuid_from-dash :
    (rand : ℕ → ℕ) (n i k rnd : ℕ)
    → is_dash i ≡ true
    → uuid_from rand (suc n) i k rnd ≡ b'-' ∷ uuid_from rand n (suc i) k rnd
unfolding uuid_from
uuid_from-dash rand n i k rnd d = rw d refl

uuid_from-four :
    (rand : ℕ → ℕ) (n i k rnd : ℕ)
    → is_dash i ≡ false
    → nat_beq i 14 ≡ true
    → uuid_from rand (suc n) i k rnd ≡ b'4' ∷ uuid_from rand n (suc i) k rnd
unfolding uuid_from
uuid_from-four rand n i k rnd d f = rw (d, f) refl

-- A text of `n` characters of the form, the first one at `i`.
abbrev IsPart : ℕ → ℕ → Str → Type 0
IsPart n i s = (length s ≡ n) × Fits i s

cons-IsPart :
    (n i c : ℕ) (s t : Str)
    → t ≡ c ∷ s
    → is_allowed i c ≡ true
    → IsPart n (suc i) s
    → IsPart (suc n) i t
cons-IsPart n i c s t e a (l, f) = subst (IsPart (suc n) i) (sym e) (ap suc l, (a, f))

uuid_from-IsPart : (rand : ℕ → ℕ) (n i k rnd : ℕ) → IsPart n i (uuid_from rand n i k rnd)
unfolding uuid_from
uuid_from-IsPart rand zero i k rnd = (refl, tt)
uuid_from-IsPart rand (suc n) i k rnd = elim (Bool-cases (is_dash i)) [
  | inl d ↦
      cons-IsPart n i b'-' _ _ (uuid_from-dash rand n i k rnd d) (dash_allowed i d)
        (uuid_from-IsPart rand n (suc i) k rnd)
  | inr d ↦ elim (Bool-cases (nat_beq i 14)) [
    | inl f ↦
        cons-IsPart n i b'4' _ _ (uuid_from-four rand n i k rnd d f) (four_allowed i d f)
          (uuid_from-IsPart rand n (suc i) k rnd)
    | inr f ↦ elim (uuid_from-cases rand n i k rnd d f) [
      | inl e ↦
          cons-IsPart n i _ _ _ e (digit_at-allowed i (shift (draw (rand k))) d f)
            (uuid_from-IsPart rand n (suc i) (suc k) (shift (draw (rand k))))
      | inr e ↦
          cons-IsPart n i _ _ _ e (digit_at-allowed i (shift rnd) d f)
            (uuid_from-IsPart rand n (suc i) k (shift rnd))
    ]
  ]
]

-- Whatever rand() answers, generateUUID returns 36 characters in the form of a UUID of version 4:
-- dashes at 8, 13, 18 and 23, the version at 14, the variant at 19, and hexadecimal digits elsewhere.
pub generate_uuid-Fits :
    (rand : ℕ → ℕ) → (length (generate_uuid rand) ≡ 36) × Fits 0 (generate_uuid rand)
unfolding generate_uuid
generate_uuid-Fits rand = uuid_from-IsPart rand 36 0 0 0
