-- ===== src/Http/Response/Body.antt =====
-- Which bytes of a response a client is given.
use ch_cpp_utils.Base.{
  ℕ, ◌%◌, ◌^◌, ◌<◌, ◌≤◌, ◌≡◌, ◌≢◌, refl, ap, ◌∙◌, true, false, Option, none, some, List, [], ◌∷◌,
  map, Str, codes, str_eq, length, take, take_all, is_nil, nat_beq, if◌then◌else◌, All, arith,
}
use ch_cpp_utils.Base.Decimal.{is_digit, number}
use ch_cpp_utils.Http.Query.{build_header_map}
use ch_cpp_utils.Http.Query.Laws.{first_value, build_header_map_lem}
use ch_cpp_utils.Http.Server.{read_digits}
use ch_cpp_utils.Http.Server.Laws.{read_digits-eq-number}
use ch_cpp_utils.Http.Response.{
  lower_name, response_headers, long_of, signed_long_of, atol, long_bits, length_value, read_length,
  get_response_body, min,
}

atol-eq-number :
    (s : Str)
    → s ≢ []
    → All (λ c. is_digit c ≡ true) s
    → number s < 2 ^ long_bits
    → atol s ≡ some (number s)
unfolding atol signed_long_of long_of
atol-eq-number [] n h k = absurd (n refl)
atol-eq-number (c ∷ s) n (h, hs) k =
    let value : read_digits 0 (c ∷ s) ≡ number (c ∷ s) =
      read_digits-eq-number 0 (c ∷ s) (h, hs) ∙ grind arith in
    ground (arith, value)

length_value_lem :
    (headers : List (Str × Str)) (ds : Str)
    → first_value (codes "content-length") (map lower_name headers) ≡ some ds
    → length_value (response_headers headers) ≡ ds
unfolding length_value response_headers build_header_map
length_value_lem headers ds given =
    ap (λ (o : Option Str). elim o as (λ _. Str) [ none ↦ [] | some v ↦ v ])
      (build_header_map_lem (codes "content-length") (map lower_name headers) ∙ given)

fits : (n k : ℕ) → n ≤ k → k < 2 ^ 32 → nat_beq (n % 2 ^ 32) n ≡ true
fits n k h l = ground (arith)

-- The bytes that are read: all for a length of 0.
abbrev pub first_bytes : ℕ → List ℕ → List ℕ
first_bytes n buffer = if nat_beq n 0 then buffer else take n buffer

read_length_lem :
    (n : ℕ) (buffer : List ℕ)
    → length buffer < 2 ^ 32
    → read_length true n buffer ≡ (true, first_bytes n buffer)
unfolding read_length
read_length_lem n buffer h = ground (
  arith,
  fits (min n (length buffer)) (length buffer),
  fits (length buffer) (length buffer),
  take_all (length buffer) buffer,
  take_all n buffer,
)

not_nil : (s : Str) → s ≢ [] → is_nil s ≡ false
not_nil [] h = absurd (h refl)
not_nil (c ∷ s) h = refl

get_response_body_given :
    (headers : List (Str × Str)) (buffer : List ℕ) (ds : Str)
    → length_value (response_headers headers) ≡ ds
    → is_nil ds ≡ false
    → atol ds ≡ some (number ds)
    → get_response_body (response_headers headers) buffer
      ≡ some (read_length true (number ds) buffer)
unfolding get_response_body
get_response_body_given headers buffer ds v n a =
    ground (arith, ap atol v, ap (λ (s : Str). is_nil s) v)

-- A client is given, however the server spells the name of the header, as many bytes of the buffer
-- as the first "Content-Length" says, or all that are there if they are fewer or the header says 0.
-- The value of the header is a decimal number that a long holds, and the buffer holds fewer than
-- 2 ^ 32 bytes.
pub get_response_body_lem :
    (headers : List (Str × Str)) (buffer : List ℕ) (ds : Str)
    → first_value (codes "content-length") (map lower_name headers) ≡ some ds
    → ds ≢ []
    → All (λ c. is_digit c ≡ true) ds
    → number ds < 2 ^ long_bits
    → length buffer < 2 ^ 32
    → get_response_body (response_headers headers) buffer
      ≡ some (true, first_bytes (number ds) buffer)
get_response_body_lem headers buffer ds given n digits fits_long fits_buffer =
    get_response_body_given headers buffer ds (length_value_lem headers ds given) (not_nil ds n)
      (atol-eq-number ds n digits fits_long)
    ∙ ap some (read_length_lem (number ds) buffer fits_buffer)
