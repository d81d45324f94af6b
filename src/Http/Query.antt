-- ===== src/Http/Query.antt =====
-- The query and the headers of a request: RequestEvent of src/http/server/http-thread.cpp.
pub mod Laws
use ch_cpp_utils.Base.{
  ℕ, suc, ◌+◌, Option, none, some, List, [], ◌∷◌, ◌++◌, Str, str_eq, find, substr, length, Assoc,
  emplace, if◌then◌else◌,
}
use ch_cpp_utils.Base.Split.{next_piece, pieces_at}

abbrev pub ampersand : ℕ
ampersand = b'&'

abbrev pub equals : ℕ
equals = b'='

-- RequestEvent::getNextQuery
abbrev pub get_next_query : Str → ℕ → Str
get_next_query = next_piece ampersand

-- The name and the value of one token.
unfoldable pub param_of : Str → Str × Str
param_of token = elim (find token equals 0) [
  | some pos ↦ (substr token 0 pos, substr token (pos + 1) (length token))
  | none ↦ (token, [])
]

unfoldable pub add_params : List Str → Assoc Str Str → Assoc Str Str
add_params [] query = query
add_params (token ∷ tokens) query =
    let (name, value) = param_of token in add_params tokens (emplace name value query)

-- RequestEvent::buildQueryMap; `none` is a URI with no query
unfoldable pub build_query_map : Option Str → Assoc Str Str
build_query_map none = []
build_query_map (some q) = add_params (pieces_at ampersand q 0) []

unfoldable pub add_headers : List (Str × Str) → Assoc Str Str → Assoc Str Str
add_headers [] headers = headers
add_headers ((name, value) ∷ rest) headers = add_headers rest (emplace name value headers)

-- RequestEvent::buildHeaderMap
unfoldable pub build_header_map : List (Str × Str) → Assoc Str Str
build_header_map headers = add_headers headers []
