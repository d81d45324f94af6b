-- ===== src/ProcStat/Scan.antt =====
-- What stat2proc uses of sscanf: %c, numbers of a width, and conversions that store nothing.
use ch_cpp_utils.Base.{
  ℕ, ◌-◌, ◌%◌, ◌^◌, Bool, true, false, Option, none, some, List, [], ◌∷◌, Str, is_nil, nat_beq,
  if◌then◌else◌,
}
use ch_cpp_utils.Base.Decimal.{is_digit, number}
use ch_cpp_utils.Http.Server.{is_space, skip_spaces}

-- A conversion with the white space before it: %c, a number that is stored in so many bits, %*lu
-- and %*s. %c has none before it.
pub data Directive : Type 0 where
  character skip_number skip_word : Directive
  number_of : ℕ → Directive

-- The digits at the front, and the rest.
unfoldable pub span_digits : Str → Str × Str
span_digits [] = ([], [])
span_digits (c ∷ s) =
    let (ds, rest) = span_digits s in if is_digit c then (c ∷ ds, rest) else ([], c ∷ s)

-- The text behind a word.
unfoldable pub drop_word : Str → Str
drop_word [] = []
drop_word (c ∷ s) = if is_space c then c ∷ s else drop_word s

abbrev pub digits_behind : Bool → Str → Option (Bool × ℕ × Str)
digits_behind negative s =
    let (ds, rest) = span_digits s in if is_nil ds then none else some (negative, number ds, rest)

abbrev pub signed_digits : Str → Option (Bool × ℕ × Str)
signed_digits [] = none
signed_digits (c ∷ s) =
    if nat_beq c b'-'
    then digits_behind true s
    else if nat_beq c b'+'
    then digits_behind false s
    else digits_behind false (c ∷ s)

-- Whether a number has a minus sign, its magnitude, and the rest; `none` does not match.
unfoldable pub scan_number : Str → Option (Bool × ℕ × Str)
scan_number s = signed_digits (skip_spaces s)

-- A number in two's complement; C does not define one that does not fit, which is cut here.
abbrev pub in_bits : ℕ → Bool → ℕ → ℕ
in_bits bits negative n = if negative then (2 ^ bits - n % 2 ^ bits) % 2 ^ bits else n % 2 ^ bits

-- The values that are stored, up to the first conversion that does not match.
unfoldable pub sscanf : List Directive → Str → List ℕ
sscanf [] s = []
sscanf (character ∷ ds) [] = []
sscanf (character ∷ ds) (c ∷ s) = c ∷ sscanf ds s
sscanf (number_of bits ∷ ds) s = elim (scan_number s) [
  | none ↦ []
  | some (negative, n, rest) ↦ in_bits bits negative n ∷ sscanf ds rest
]
sscanf (skip_number ∷ ds) s = elim (scan_number s) [
  | none ↦ []
  | some (negative, n, rest) ↦ sscanf ds rest
]
sscanf (skip_word ∷ ds) s =
    let word = skip_spaces s in if is_nil word then [] else sscanf ds (drop_word word)
