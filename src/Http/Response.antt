-- ===== src/Http/Response.antt =====
-- The headers and the body of a response: HttpResponse and getResponseBody of
-- src/http/client/http-request.cpp. The response that libevent parsed is an argument.
pub mod Body
mod Tests
use ch_cpp_utils.Base.{
  ℕ, ◌+◌, ◌-◌, ◌%◌, ◌^◌, Bool, true, false, not, ◌&&◌, Option, none, some, List, [], ◌∷◌, map, Str,
  codes, str_eq, length, take, is_nil, leb, ltb, nat_beq, if◌then◌else◌, Assoc, lookup, emplace,
}
use ch_cpp_utils.Http.Query.{add_headers}
use ch_cpp_utils.Http.Server.{skip_spaces, read_digits, ulong_bits}

-- tolower in the "C" locale
abbrev pub to_lower : ℕ → ℕ
to_lower c = if leb b'A' c && leb c b'Z' then c + 32 else c

abbrev pub lower_name : Str × Str → Str × Str
lower_name (name, value) = (map to_lower name, value)

-- HttpResponse::buildHeaderMap
unfoldable pub response_headers : List (Str × Str) → Assoc Str Str
response_headers headers = add_headers (map lower_name headers) []

-- The magnitude of a long of 64 bits.
abbrev pub long_bits : ℕ
long_bits = 63

-- The digits behind the sign, as a long and then a size_t: C does not define a number that is too
-- large.
unfoldable pub long_of : Bool → Str → Option ℕ
long_of negative s =
    let n = read_digits 0 s in
    if negative
    then (if leb n (2 ^ long_bits) then some ((2 ^ ulong_bits - n) % 2 ^ ulong_bits) else none)
    else if ltb n (2 ^ long_bits)
    then some n
    else none

unfoldable pub signed_long_of : Str → Option ℕ
signed_long_of [] = long_of false []
signed_long_of (c ∷ s) =
    if nat_beq c b'-'
    then long_of true s
    else if nat_beq c b'+'
    then long_of false s
    else long_of false (c ∷ s)

-- atol, as a size_t
unfoldable pub atol : Str → Option ℕ
atol s = signed_long_of (skip_spaces s)

-- std::min
abbrev pub min : ℕ → ℕ → ℕ
min a b = if ltb b a then b else a

-- The value of headers["content-length"], which is empty for a name that is not there.
unfoldable pub length_value : Assoc Str Str → Str
length_value headers = elim (lookup (codes "content-length") headers) [ none ↦ [] | some v ↦ v ]

-- What HttpRequest::getResponseBody reads of the buffer: the bodyLength first bytes. Its length is
-- stored in 32 bits, and the result says whether it fits. `none` is where atol is not defined.
unfoldable pub read_length : Bool → ℕ → List ℕ → Bool × List ℕ
read_length given n buffer =
    let body_length = if given && not (nat_beq n 0) then min n (length buffer) else length buffer in
    (nat_beq (body_length % 2 ^ 32) body_length, take body_length buffer)

unfoldable pub get_response_body : Assoc Str Str → List ℕ → Option (Bool × List ℕ)
get_response_body headers buffer =
    let cl = length_value headers in
    if not (is_nil cl)
    then (elim (atol cl) [ none ↦ none | some n ↦ some (read_length true n buffer) ])
    else some (read_length false 0 buffer)
