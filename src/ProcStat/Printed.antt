-- ===== src/ProcStat/Printed.antt =====
-- Numbers as the kernel prints them, and what sscanf reads of them.
use ch_cpp_utils.Base.{
  ℕ, ◌≡◌, ◌≢◌, refl, ap, ◌∙◌, Bool, true, false, some, List, [], ◌∷◌, ◌++◌, Str, is_nil,
  if◌then◌else◌, arith, All,
}
use ch_cpp_utils.Base.Decimal.{is_digit, number, to_string, to_string_lem}
use ch_cpp_utils.Http.Server.{is_space, skip_spaces}
use ch_cpp_utils.ProcStat.Scan.{
  Directive, character, number_of, skip_number, skip_word, span_digits, drop_word, digits_behind,
  signed_digits, scan_number, in_bits, sscanf,
}

-- A minus sign and a magnitude.
abbrev pub Number : Type 0
Number = Bool × ℕ

abbrev pub printed : Number → Str
printed (negative, n) = if negative then b'-' ∷ to_string n else to_string n

-- The numbers, each behind a space.
unfoldable pub print : List Number → Str
print [] = []
print (x ∷ xs) = b' ' ∷ (printed x ++ print xs)

-- What the conversions store of the numbers.
unfoldable pub kept : List Directive → List Number → List ℕ
kept [] xs = []
kept (d ∷ ds) [] = []
kept (character ∷ ds) (x ∷ xs) = []
kept (number_of bits ∷ ds) (x ∷ xs) = in_bits bits x.0 x.1 ∷ kept ds xs
kept (skip_number ∷ ds) (x ∷ xs) = kept ds xs
kept (skip_word ∷ ds) (x ∷ xs) = kept ds xs

-- A text that does not go on with a digit.
abbrev Ends : Str → Type 0
Ends [] = Unit
Ends (c ∷ s) = (is_digit c ≡ false) × (is_space c ≡ true)

span_digits-append :
    (ds rest : Str)
    → All (λ c. is_digit c ≡ true) ds
    → Ends rest
    → span_digits (ds ++ rest) ≡ (ds, rest)
unfolding span_digits
span_digits-append [] [] h e = refl
span_digits-append [] (c ∷ s) h (e, f) = rw e refl
span_digits-append (c ∷ ds) rest (h, hs) e = rw (h, span_digits-append ds rest hs e) refl

digits_behind-append :
    (b : Bool) (n : ℕ) (t rest : Str)
    → t ≢ []
    → All (λ c. is_digit c ≡ true) t
    → number t ≡ n
    → Ends rest
    → digits_behind b (t ++ rest) ≡ some (b, n, rest)
digits_behind-append b n [] rest ne ds v e = absurd (ne refl)
digits_behind-append b n (c ∷ t) rest ne ds v e =
    rw (span_digits-append (c ∷ t) rest ds e) (ap (λ k. some (b, k, rest)) v)

-- A digit starts a number without a sign.
digit_starts :
    (c : ℕ) (s : Str)
    → is_digit c ≡ true
    → signed_digits (skip_spaces (c ∷ s)) ≡ digits_behind false (c ∷ s)
digit_starts c s h = ground arith

unsigned_digits :
    (n : ℕ) (t rest : Str)
    → t ≢ []
    → All (λ c. is_digit c ≡ true) t
    → number t ≡ n
    → Ends rest
    → signed_digits (skip_spaces (t ++ rest)) ≡ some (false, n, rest)
unsigned_digits n [] rest ne ds v e = absurd (ne refl)
unsigned_digits n (c ∷ t) rest ne ds v e =
    digit_starts c (t ++ rest) ds.0 ∙ digits_behind-append false n (c ∷ t) rest ne ds v e

print-Ends : (xs : List Number) → Ends (print xs)
unfolding print
print-Ends [] = tt
print-Ends (x ∷ xs) = (refl, refl)

scan_number-printed :
    (x : Number) (rest : Str)
    → Ends rest
    → scan_number (b' ' ∷ (printed x ++ rest)) ≡ some (x.0, x.1, rest)
unfolding scan_number
scan_number-printed (true, n) rest e =
    let (ne, ds, v) = to_string_lem n in digits_behind-append true n (to_string n) rest ne ds v e
scan_number-printed (false, n) rest e =
    let (ne, ds, v) = to_string_lem n in unsigned_digits n (to_string n) rest ne ds v e

-- A printed number is a word.
drop_word-append :
    (t rest : Str) → All (λ c. is_space c ≡ false) t → Ends rest → drop_word (t ++ rest) ≡ rest
unfolding drop_word
drop_word-append [] [] h e = refl
drop_word-append [] (c ∷ s) h (d, e) = rw e refl
drop_word-append (c ∷ t) rest (h, hs) e = rw h (drop_word-append t rest hs e)

no_space : (t : Str) → All (λ c. is_digit c ≡ true) t → All (λ c. is_space c ≡ false) t
no_space [] h = tt
no_space (c ∷ t) (h, hs) = (ground arith, no_space t hs)

skip_word_of_text :
    (t rest : Str)
    → t ≢ []
    → All (λ c. is_space c ≡ false) t
    → Ends rest
    → (is_nil (skip_spaces (t ++ rest)) ≡ false) × (drop_word (skip_spaces (t ++ rest)) ≡ rest)
unfolding drop_word
skip_word_of_text [] rest ne h e = absurd (ne refl)
skip_word_of_text (c ∷ t) rest ne (h, hs) e = rw (h, h) (refl, drop_word-append t rest hs e)

skip_word-printed :
    (x : Number) (rest : Str)
    → Ends rest
    → (is_nil (skip_spaces (b' ' ∷ (printed x ++ rest))) ≡ false)
      × (drop_word (skip_spaces (b' ' ∷ (printed x ++ rest))) ≡ rest)
skip_word-printed (true, n) rest e =
    let (ne, ds, v) = to_string_lem n in
    skip_word_of_text (b'-' ∷ to_string n) rest (λ (q : b'-' ∷ to_string n ≡ []). cc)
      (refl, no_space (to_string n) ds) e
skip_word-printed (false, n) rest e =
    let (ne, ds, v) = to_string_lem n in
    skip_word_of_text (to_string n) rest ne (no_space (to_string n) ds) e

sscanf_end : (s : Str) → sscanf [] s ≡ []
unfolding sscanf
sscanf_end s = refl

sscanf-nil : (d : Directive) (ds : List Directive) → sscanf (d ∷ ds) [] ≡ []
unfolding sscanf scan_number
sscanf-nil character ds = refl
sscanf-nil (number_of bits) ds = refl
sscanf-nil skip_number ds = refl
sscanf-nil skip_word ds = refl

module _ (ds : List Directive) (s rest : Str) where
  sscanf-number :
      (bits n : ℕ) (b : Bool)
      → scan_number s ≡ some (b, n, rest)
      → sscanf (number_of bits ∷ ds) s ≡ in_bits bits b n ∷ sscanf ds rest
  unfolding sscanf
  sscanf-number bits n b e = ground arith

  sscanf-skip_number :
      (n : ℕ) (b : Bool)
      → scan_number s ≡ some (b, n, rest)
      → sscanf (skip_number ∷ ds) s ≡ sscanf ds rest
  unfolding sscanf
  sscanf-skip_number n b e = ground arith

  sscanf-skip_word :
      (is_nil (skip_spaces s) ≡ false) × (drop_word (skip_spaces s) ≡ rest)
      → sscanf (skip_word ∷ ds) s ≡ sscanf ds rest
  unfolding sscanf
  sscanf-skip_word (a, b) = rw (a, b) refl

abbrev pub no_character : List Directive → Bool
no_character [] = true
no_character (character ∷ ds) = false
no_character (number_of bits ∷ ds) = no_character ds
no_character (skip_number ∷ ds) = no_character ds
no_character (skip_word ∷ ds) = no_character ds

-- sscanf reads the numbers back, as far as the conversions and the numbers go.
pub sscanf-print :
    (ds : List Directive) (xs : List Number)
    → no_character ds ≡ true
    → sscanf ds (print xs) ≡ kept ds xs
unfolding print kept
sscanf-print [] xs h = sscanf_end (print xs)
sscanf-print (character ∷ ds) xs h = absurd (cc)
sscanf-print (number_of bits ∷ ds) [] h = sscanf-nil (number_of bits) ds
sscanf-print (skip_number ∷ ds) [] h = sscanf-nil skip_number ds
sscanf-print (skip_word ∷ ds) [] h = sscanf-nil skip_word ds
sscanf-print (number_of bits ∷ ds) (x ∷ xs) h =
    sscanf-number ds (print (x ∷ xs)) (print xs) bits x.1 x.0
      (scan_number-printed x (print xs) (print-Ends xs))
    ∙ ap (λ k. in_bits bits x.0 x.1 ∷ k) (sscanf-print ds xs h)
sscanf-print (skip_number ∷ ds) (x ∷ xs) h =
    sscanf-skip_number ds (print (x ∷ xs)) (print xs) x.1 x.0
      (scan_number-printed x (print xs) (print-Ends xs))
    ∙ sscanf-print ds xs h
sscanf-print (skip_word ∷ ds) (x ∷ xs) h =
    sscanf-skip_word ds (print (x ∷ xs)) (print xs) (skip_word-printed x (print xs) (print-Ends xs))
    ∙ sscanf-print ds xs h

-- No printed number has a byte that is neither a digit, a minus sign nor a space.
plain : (c : ℕ) (s : Str) → is_digit c ≡ false → All (λ b. is_digit b ≡ true) s → All (λ b. b ≢ c) s
plain c [] h hs = tt
plain c (b ∷ s) h (k, ks) = (λ (e : b ≡ c). ground arith, plain c s h ks)

pub All-append :
    (c : ℕ) (s t : Str) → All (λ b. b ≢ c) s → All (λ b. b ≢ c) t → All (λ b. b ≢ c) (s ++ t)
All-append c [] t h k = k
All-append c (b ∷ s) t (h, hs) k = (h, All-append c s t hs k)

pub print_avoids :
    (c : ℕ) (xs : List Number)
    → is_digit c ≡ false
    → b' ' ≢ c
    → b'-' ≢ c
    → All (λ b. b ≢ c) (print xs)
unfolding print
print_avoids c [] h k m = tt
print_avoids c ((true, n) ∷ xs) h k m = (
  k,
  All-append c (b'-' ∷ to_string n) (print xs) (m, plain c (to_string n) h (to_string_lem n).1)
      (print_avoids c xs h k m),
)
print_avoids c ((false, n) ∷ xs) h k m = (
  k,
  All-append c (to_string n) (print xs) (plain c (to_string n) h (to_string_lem n).1)
      (print_avoids c xs h k m),
)
