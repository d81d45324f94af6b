-- ===== src/Utils/Zeros.antt =====
-- How few digits of a UUID rand() decides.
use ch_cpp_utils.Base.{
  ℕ, suc, ◌%◌, ◌^◌, ◌≡◌, refl, ap, ◌∙◌, false, ◌∷◌, codes, take, nat_beq, arith, inl, inr,
}
use ch_cpp_utils.Utils.Uuid.{draw, shift, is_dash, digit_at, uuid_from, generate_uuid}
use ch_cpp_utils.Utils.Identity.{uuid_from-cases}

drawn_20 : (r : ℕ) → shift (draw r) % 2 ^ 20 ≡ 0
drawn_20 r = ground arith

shift_16 : (x : ℕ) → x % 2 ^ 20 ≡ 0 → shift x % 2 ^ 16 ≡ 0
shift_16 x h = ground arith

shift_12 : (x : ℕ) → x % 2 ^ 16 ≡ 0 → shift x % 2 ^ 12 ≡ 0
shift_12 x h = ground arith

shift_8 : (x : ℕ) → x % 2 ^ 12 ≡ 0 → shift x % 2 ^ 8 ≡ 0
shift_8 x h = ground arith

shift_4 : (x : ℕ) → x % 2 ^ 8 ≡ 0 → shift x % 2 ^ 4 ≡ 0
shift_4 x h = ground arith

drawn_16 : (r : ℕ) → shift (draw r) % 2 ^ 16 ≡ 0
drawn_16 r = omega (arith, drawn_20 r)

drawn_12 : (r : ℕ) → shift (draw r) % 2 ^ 12 ≡ 0
drawn_12 r = omega (arith, drawn_20 r)

drawn_8 : (r : ℕ) → shift (draw r) % 2 ^ 8 ≡ 0
drawn_8 r = omega (arith, drawn_20 r)

drawn_4 : (r : ℕ) → shift (draw r) % 2 ^ 4 ≡ 0
drawn_4 r = omega (arith, drawn_20 r)

low_20 : (x : ℕ) → x % 2 ^ 20 ≡ 0 → x % 16 ≡ 0
low_20 x h = omega (arith, h)

low_16 : (x : ℕ) → x % 2 ^ 16 ≡ 0 → x % 16 ≡ 0
low_16 x h = omega (arith, h)

low_12 : (x : ℕ) → x % 2 ^ 12 ≡ 0 → x % 16 ≡ 0
low_12 x h = omega (arith, h)

low_8 : (x : ℕ) → x % 2 ^ 8 ≡ 0 → x % 16 ≡ 0
low_8 x h = omega (arith, h)

shift_20 : (x : ℕ) → x % 2 ^ 24 ≡ 0 → shift x % 2 ^ 20 ≡ 0
shift_20 x h = ground arith

low_4 : (x : ℕ) → x % 2 ^ 4 ≡ 0 → x % 16 ≡ 0
low_4 x h = h

zero_digit : (i rnd : ℕ) → nat_beq i 19 ≡ false → rnd % 16 ≡ 0 → digit_at i rnd ≡ b'0'
zero_digit i rnd e h = rw (e, h) refl

-- A digit that is 0: before it `rnd` is a multiple of M, and behind it a multiple of N.
module _ (rand : ℕ → ℕ) (M N : ℕ) (drawn : (r : ℕ) → shift (draw r) % N ≡ 0)
    (shifted : (x : ℕ) → x % M ≡ 0 → shift x % N ≡ 0) (low : (x : ℕ) → x % N ≡ 0 → x % 16 ≡ 0) where
  zero_step :
      (n i k rnd : ℕ)
      → is_dash i ≡ false
      → nat_beq i 14 ≡ false
      → nat_beq i 19 ≡ false
      → rnd % M ≡ 0
      → (k' : ℕ) × (rnd' : ℕ) × (rnd' % N ≡ 0)
        × (uuid_from rand (suc n) i k rnd ≡ b'0' ∷ uuid_from rand n (suc i) k' rnd')
  zero_step n i k rnd d f v h = elim (uuid_from-cases rand n i k rnd d f) [
    | inl e ↦
        let x = shift (draw (rand k)) in
        (
          suc k,
          x,
          drawn (rand k),
          e
              ∙ ap (λ c. c ∷ uuid_from rand n (suc i) (suc k) x)
                  (zero_digit i x v (low x (drawn (rand k)))),
        )
    | inr e ↦
        let x = shift rnd in
        (
          k,
          x,
          shifted rnd h,
          e ∙ ap (λ c. c ∷ uuid_from rand n (suc i) k x) (zero_digit i x v (low x (shifted rnd h))),
        )
  ]

-- The first five digits of every UUID are 0, whatever rand() answers.
pub uuid_starts_with_zeros : (rand : ℕ → ℕ) → take 5 (generate_uuid rand) ≡ codes "00000"
unfolding generate_uuid
uuid_starts_with_zeros rand =
    let (k₁, x₁, a₁, e₁) =
      zero_step rand (2 ^ 24) (2 ^ 20) drawn_20 shift_20 low_20 35 0 0 0 refl refl refl refl in
    let (k₂, x₂, a₂, e₂) =
      zero_step rand (2 ^ 20) (2 ^ 16) drawn_16 shift_16 low_16 34 1 k₁ x₁ refl refl refl a₁ in
    let (k₃, x₃, a₃, e₃) =
      zero_step rand (2 ^ 16) (2 ^ 12) drawn_12 shift_12 low_12 33 2 k₂ x₂ refl refl refl a₂ in
    let (k₄, x₄, a₄, e₄) =
      zero_step rand (2 ^ 12) (2 ^ 8) drawn_8 shift_8 low_8 32 3 k₃ x₃ refl refl refl a₃ in
    let (k₅, x₅, a₅, e₅) =
      zero_step rand (2 ^ 8) (2 ^ 4) drawn_4 shift_4 low_4 31 4 k₄ x₄ refl refl refl a₄ in
    ap (take 5) e₁
    ∙ ap (λ s. b'0' ∷ take 4 s) e₂
    ∙ ap (λ s. b'0' ∷ (b'0' ∷ take 3 s)) e₃
    ∙ ap (λ s. b'0' ∷ (b'0' ∷ (b'0' ∷ take 2 s))) e₄
    ∙ ap (λ s. b'0' ∷ (b'0' ∷ (b'0' ∷ (b'0' ∷ take 1 s)))) e₅
