-- ===== src/Http/Query/Laws.antt =====
-- What the maps of a request hold: the first value of each name, up to an empty parameter.
use ch_cpp_utils.Base.{
  ℕ, ◌+◌, ◌≡◌, ◌≢◌, refl, ap, ◌∙◌, Option, none, some, List, [], ◌∷◌, ◌++◌, Str, str_eq, find,
  substr, length, take, drop, take_all, index_of, Assoc, lookup, emplace, lookup-emplace,
  if◌then◌else◌, arith, All, map, ◌==◌, str_beq_iff, take-append, length-append,
}
use ch_cpp_utils.Base.Split.{join_by, pieces_at}
use ch_cpp_utils.Base.Split.Join.{IsPiece, pieces_at-join_by, pieces_at-join_by_cut, drop_past}
use ch_cpp_utils.Http.Query.{
  ampersand, equals, param_of, add_params, build_query_map, add_headers, build_header_map,
}

-- A name and a value as a client writes them.
abbrev pub param : Str × Str → Str
param (name, value) = name ++ equals ∷ value

-- No "=" in the name, and no "&" in the name or the value.
abbrev pub IsParam : Str × Str → Type 0
IsParam (name, value) =
    All (λ c. c ≢ equals) name × All (λ c. c ≢ ampersand) (name ++ equals ∷ value)

index_of-append :
    (c : ℕ) (s t : Str) → All (λ b. b ≢ c) s → index_of c (s ++ c ∷ t) ≡ some (length s)
index_of-append c [] t h = ground arith
index_of-append c (b ∷ s) t (h, hs) = ground (arith, index_of-append c s t hs)

-- A text cut at its first "=".
param_of-append :
    (token name value : Str) (pos : ℕ)
    → index_of equals token ≡ some pos
    → take pos token ≡ name
    → drop (pos + 1) token ≡ value
    → param_of token ≡ (name, take (length token) value)
unfolding param_of find substr
param_of-append token name value pos e n v = ground arith

param_of-param : (p : Str × Str) → IsParam p → param_of (param p) ≡ p
param_of-param (name, value) h =
    param_of-append (param (name, value)) name value (length name)
      (index_of-append equals name value h.0) (take-append name (equals ∷ value))
      (drop_past name value equals)
    ∙ ap (λ (v : Str). (name, v))
        (take_all (length (param (name, value))) value
          (omega (arith, length-append {0} name (equals ∷ value))))

IsPiece-param : (p : Str × Str) → IsParam p → IsPiece ampersand (param p)
IsPiece-param ([], value) h = (cc, h.1)
IsPiece-param (c ∷ name, value) h = (cc, h.1)

IsPiece-params : (ps : List (Str × Str)) → All IsParam ps → All (IsPiece ampersand) (map param ps)
IsPiece-params [] h = tt
IsPiece-params (p ∷ ps) (h, hs) = (IsPiece-param p h, IsPiece-params ps hs)

add_params-eq-add_headers :
    (ps : List (Str × Str)) (m : Assoc Str Str)
    → All IsParam ps
    → add_params (map param ps) m ≡ add_headers ps m
unfolding add_params add_headers
add_params-eq-add_headers [] m h = refl
add_params-eq-add_headers (p ∷ ps) m (h, hs) =
    ap (λ (q : Str × Str). add_params (map param ps) (emplace q.0 q.1 m)) (param_of-param p h)
    ∙ add_params-eq-add_headers ps (emplace p.0 p.1 m) hs

-- The value of the first pair with a name, or the one that was there.
abbrev pub first_value : Str → List (Str × Str) → Option Str
first_value name [] = none
first_value name ((n, v) ∷ rest) = if n == name then some v else first_value name rest

lookup-add_headers :
    (name : Str) (ps : List (Str × Str)) (m : Assoc Str Str)
    → lookup name (add_headers ps m)
      ≡ (elim (lookup name m) [ some v ↦ some v | none ↦ first_value name ps ])
unfolding add_headers
lookup-add_headers name [] m = ground arith
lookup-add_headers name ((n, v) ∷ ps) m = ground (
  arith,
  lookup-add_headers name ps (emplace n v m),
  lookup-emplace n name v m,
  str_beq_iff n name,
)

-- The header map holds the first value of each name.
pub build_header_map_lem :
    (name : Str) (headers : List (Str × Str))
    → lookup name (build_header_map headers) ≡ first_value name headers
unfolding build_header_map lookup
build_header_map_lem name headers = lookup-add_headers name headers []

build_query_map-eq-build_header_map :
    (ps : List (Str × Str)) (q : Str)
    → All IsParam ps
    → pieces_at ampersand q 0 ≡ map param ps
    → build_query_map (some q) ≡ build_header_map ps
unfolding build_query_map build_header_map
build_query_map-eq-build_header_map ps q h e =
    ap (λ ts. add_params ts []) e ∙ add_params-eq-add_headers ps [] h

-- The parameters that a client writes with "&" between them are read back, the first value of each
-- name; where an empty parameter follows, they are all that is read. No name holds "=" or "&", and
-- no value holds "&".
pub build_query_map_lem :
    (ps : List (Str × Str)) (rest : List Str) (name : Str)
    → All IsParam ps
    → (lookup name (build_query_map (some (join_by ampersand (map param ps))))
        ≡ first_value name ps)
      × (lookup name (build_query_map (some (join_by ampersand (map param ps ++ [] ∷ rest))))
          ≡ first_value name ps)
build_query_map_lem ps rest name h =
    let pieces = IsPiece-params ps h in
    (
      ap (lookup name) (
            build_query_map-eq-build_header_map ps (join_by ampersand (map param ps)) h
              (pieces_at-join_by ampersand (map param ps) pieces))
          ∙ build_header_map_lem name ps,
      ap (lookup name) (
            build_query_map-eq-build_header_map ps (join_by ampersand (map param ps ++ [] ∷ rest)) h
              (pieces_at-join_by_cut ampersand (map param ps) rest pieces))
          ∙ build_header_map_lem name ps,
    )
