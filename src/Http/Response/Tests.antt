-- ===== src/Http/Response/Tests.antt =====
-- Responses, and the theorem on their bodies at a concrete input.
use ch_cpp_utils.Base.{◌≡◌, refl, true, none, some, [], ◌∷◌, codes, lookup, emplace, arith, str_eq}
use ch_cpp_utils.Http.Query.{add_headers}
use ch_cpp_utils.Http.Server.{read_digits}
use ch_cpp_utils.Http.Response.{
  response_headers, long_of, signed_long_of, atol, length_value, read_length, get_response_body,
}
use ch_cpp_utils.Http.Response.Body.{get_response_body_lem}

-- What the runs below compute with.
runs : Unit {0}
unfolding response_headers add_headers lookup emplace read_digits long_of signed_long_of atol
    length_value read_length get_response_body
runs = tt

atol_runs :
    (atol (codes " 12x") ≡ some 12)
    × (atol (codes "x") ≡ some 0)
    × (atol (codes "-1") ≡ some 18446744073709551615)
    × (atol (codes "9223372036854775808") ≡ none)
unfolding runs
atol_runs = (refl, refl, refl, refl)

no_length : get_response_body (response_headers []) (codes "abc") ≡ some (true, codes "abc")
unfolding runs
no_length = refl

get_response_body_lem_example :
    get_response_body (response_headers ((codes "CONTENT-Length", codes "2") ∷ [])) (codes "abc")
    ≡ some (true, codes "ab")
get_response_body_lem_example =
    get_response_body_lem ((codes "CONTENT-Length", codes "2") ∷ []) (codes "abc") (codes "2") refl
      (cc) (refl, tt) (omega arith) (omega arith)
