-- ===== src/Base/Decimal.antt =====
-- std::to_string of an unsigned number, and what decimal digits write.
use Prim.Native.Nat.{ℕ, zero, suc, ◌+◌, ◌-◌, ◌*◌, ◌/◌, ◌%◌, ◌^◌, ◌<◌}
use mathlib.Core.Path.{◌≡◌, ap, ◌∙◌}
use mathlib.Core.Logic.{◌≢◌, inl, inr}
use mathlib.Core.Bool.{Bool, true, false, ◌&&◌}
use mathlib.Core.List.{[], ◌∷◌}
use native.Mathlib.Omega.{arith}
use ch_cpp_utils.Base.Tests.{leb, nat_beq, if◌then◌else◌, if_keeps, Bool-cases}
use ch_cpp_utils.Base.Lists.{length, All}
use ch_cpp_utils.Base.Text.{Str}

abbrev pub is_digit : ℕ → Bool
is_digit c = leb b'0' c && leb c b'9'

abbrev pub digit : ℕ → ℕ
digit n = b'0' + n % 10

-- The digits of a number before those of `acc`, the last one first found. The fuel bounds the
-- digits.
unfoldable pub decimal : ℕ → ℕ → Str → Str
decimal zero n acc = acc
decimal (suc fuel) n acc =
    let rest = decimal fuel (n / 10) (digit n ∷ acc) in
    if nat_beq (n / 10) 0 then digit n ∷ acc else rest

-- std::to_string(n)
unfoldable pub to_string : ℕ → Str
to_string n = decimal (suc n) n []

-- The number that decimal digits write.
abbrev pub number : Str → ℕ
number [] = 0
number (c ∷ s) = (c - b'0') * 10 ^ length s + number s

ten_pow : (k : ℕ) → 10 ^ suc k ≡ 10 * 10 ^ k
ten_pow k = grind arith

split_last : (q r x a : ℕ) → (10 * q + r) * x + a ≡ q * (10 * x) + (r * x + a)
split_last q r x a = grind arith

div_mod : (n : ℕ) → 10 * (n / 10) + n % 10 ≡ n
div_mod n = omega arith

digit_value : (n : ℕ) → digit n - b'0' ≡ n % 10
digit_value n = omega arith

is_digit-digit : (n : ℕ) → is_digit (digit n) ≡ true
is_digit-digit n = ground arith

number-digit :
    (n : ℕ) (acc : Str) → number (digit n ∷ acc) ≡ (n % 10) * 10 ^ length acc + number acc
number-digit n acc = ap (λ d. d * 10 ^ length acc + number acc) (digit_value n)

shift :
    (n : ℕ) (acc : Str)
    → (n / 10) * 10 ^ suc (length acc) + ((n % 10) * 10 ^ length acc + number acc)
      ≡ n * 10 ^ length acc + number acc
shift n acc =
    rw (
      ten_pow (length acc),
      ← split_last (n / 10) (n % 10) (10 ^ length acc) (number acc),
      div_mod n,
    )

single : (n x a : ℕ) → nat_beq (n / 10) 0 ≡ true → (n % 10) * x + a ≡ n * x + a
single n x a h = ap (λ (k : ℕ). k * x + a) (ground arith)

smaller : (n fuel : ℕ) → n < suc fuel → nat_beq (n / 10) 0 ≡ false → n / 10 < fuel
smaller n fuel h e = ground arith

number-decimal :
    (fuel n : ℕ) (acc : Str)
    → n < fuel
    → number (decimal fuel n acc) ≡ n * 10 ^ length acc + number acc
unfolding decimal
number-decimal zero n acc h = absurd (omega arith)
number-decimal (suc fuel) n acc h = elim (Bool-cases (nat_beq (n / 10) 0)) [
  | inl e ↦ rw e (number-digit n acc ∙ single n (10 ^ length acc) (number acc) e)
  | inr e ↦ rw e (
      number-decimal fuel (n / 10) (digit n ∷ acc) (smaller n fuel h e)
      ∙ ap (λ k. (n / 10) * 10 ^ suc (length acc) + k) (number-digit n acc)
      ∙ shift n acc)
]

All-decimal :
    (fuel n : ℕ) (acc : Str)
    → All (λ c. is_digit c ≡ true) acc
    → All (λ c. is_digit c ≡ true) (decimal fuel n acc)
unfolding decimal
All-decimal zero n acc h = h
All-decimal (suc fuel) n acc h =
    if_keeps (All (λ c. is_digit c ≡ true)) (nat_beq (n / 10) 0) (is_digit-digit n, h)
      (All-decimal fuel (n / 10) (digit n ∷ acc) (is_digit-digit n, h))

decimal_ne_nil : (fuel n c : ℕ) (acc : Str) → decimal fuel n (c ∷ acc) ≢ []
unfolding decimal
decimal_ne_nil zero n c acc = cc
decimal_ne_nil (suc fuel) n c acc =
    if_keeps (λ s. s ≢ []) (nat_beq (n / 10) 0) (cc)
      (decimal_ne_nil fuel (n / 10) (digit n) (c ∷ acc))

-- The digits of a number are digits, at least one, and they write the number.
pub to_string_lem :
    (n : ℕ)
    → (to_string n ≢ []) × All (λ c. is_digit c ≡ true) (to_string n) × (number (to_string n) ≡ n)
unfolding to_string decimal
to_string_lem n = (
  if_keeps (λ s. s ≢ []) (nat_beq (n / 10) 0) (cc) (decimal_ne_nil n (n / 10) (digit n) []),
  All-decimal (suc n) n [] tt,
  number-decimal (suc n) n [] (omega arith) ∙ times_one n,
)
  where
    times_one : (k : ℕ) → k * 1 + 0 ≡ k
    times_one k = omega arith
