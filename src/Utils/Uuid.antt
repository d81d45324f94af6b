-- ===== src/Utils/Uuid.antt =====
-- generateUUID of src/utils.cpp. The values of rand() are an argument, and an int that overflows is
-- wrapped around, which C++ leaves open.
use ch_cpp_utils.Base.{
  ℕ, zero, suc, ◌+◌, ◌-◌, ◌*◌, ◌/◌, ◌%◌, ◌^◌, Bool, ◌||◌, [], ◌∷◌, Str, leb, ltb, nat_beq,
  if◌then◌else◌,
}

-- The value of `rnd` that rand() gives, as the bits of an int.
abbrev pub draw : ℕ → ℕ
draw r = (2 ^ 25 + (r * 2 ^ 24) % 2 ^ 32) % 2 ^ 32

-- rnd <= 0x02, of an int
abbrev pub is_used_up : ℕ → Bool
is_used_up rnd = leb rnd 2 || leb (2 ^ 31) rnd

-- rnd >>= 4, of an int
abbrev pub shift : ℕ → ℕ
shift rnd = rnd / 16 + (if leb (2 ^ 31) rnd then 15 * 2 ^ 28 else 0)

-- CHARS, at the first sixteen positions
abbrev pub char_at : ℕ → ℕ
char_at n = if ltb n 10 then b'0' + n else b'A' + (n - 10)

-- The characters that are written before the loop.
abbrev pub is_dash : ℕ → Bool
is_dash i = nat_beq i 8 || (nat_beq i 13 || (nat_beq i 18 || nat_beq i 23))

-- The character at `i` that the loop writes; (x & 0x3) | 0x8 is 8 + x % 4
abbrev pub digit_at : ℕ → ℕ → ℕ
digit_at i rnd = char_at (if nat_beq i 19 then 8 + rnd % 4 else rnd % 16)

-- The characters from `i` on, `n` of them; `k` is the number of the calls of rand().
unfoldable pub uuid_from : (ℕ → ℕ) → (n i k rnd : ℕ) → Str
uuid_from rand zero i k rnd = []
uuid_from rand (suc n) i k rnd =
    let kept = uuid_from rand n (suc i) k rnd in
    let drawn = shift (draw (rand k)) in
    let after_draw = uuid_from rand n (suc i) (suc k) drawn in
    let shifted = uuid_from rand n (suc i) k (shift rnd) in
    if is_dash i
    then b'-' ∷ kept
    else if nat_beq i 14
    then b'4' ∷ kept
    else if is_used_up rnd
    then digit_at i drawn ∷ after_draw
    else digit_at i (shift rnd) ∷ shifted

-- generateUUID
unfoldable pub generate_uuid : (ℕ → ℕ) → Str
generate_uuid rand = uuid_from rand 36 0 0 0
