-- ===== src/Http/Server/Tests.antt =====
-- Requests, their queries and bodies, and the theorems on them at concrete inputs.
use ch_cpp_utils.Base.{
  ◌≡◌, refl, none, some, List, [], ◌∷◌, Str, codes, lookup, emplace, assign, str_eq, arith, find,
  substr,
}
use ch_cpp_utils.Base.Split.{next_piece, pieces_from, pieces_at, join_by}
use ch_cpp_utils.DirTree.Tokens.{tokens, normalize}
use ch_cpp_utils.DirTree.Node.{get_child, has_child, add_child, set_child, set_data}
use ch_cpp_utils.DirTree.Tree.{insert, insert_at, search, search_at}
use ch_cpp_utils.Http.Method.{post}
use ch_cpp_utils.Http.Router.{Route, get_dir_tree, add_route, get_route, search_cbk}
use ch_cpp_utils.Http.Query.{param_of, add_params, build_query_map, add_headers, build_header_map}
use ch_cpp_utils.Http.Query.Laws.{build_header_map_lem, build_query_map_lem}
use ch_cpp_utils.Http.Server.{
  EvRequest, request_event, has_body, read_digits, unsigned_of, signed_of, stoul, content_length,
  read_body, on_request_event, on_ev_request,
}

-- What the runs below compute with.
runs : Unit {0}
unfolding get_dir_tree add_route get_route search_cbk insert insert_at search search_at tokens
    pieces_at pieces_from normalize next_piece find substr join_by get_child has_child add_child
    set_child set_data lookup emplace assign param_of add_params build_query_map add_headers
    build_header_map request_event has_body read_digits unsigned_of signed_of stoul content_length
    read_body on_request_event on_ev_request
runs = tt

query_runs :
    (lookup (codes "b") (build_query_map (some (codes "a=1&b=x=y&b=2"))) ≡ some (codes "x=y"))
    × (lookup (codes "b") (build_query_map (some (codes "a=1&&b=2"))) ≡ none)
    × (lookup (codes "b") (build_query_map (some (codes "b&a=1"))) ≡ some [])
unfolding runs
query_runs = (refl, refl, refl)

stoul_runs :
    (stoul (codes " 42kB") ≡ some 42)
    × (stoul (codes "-1") ≡ some 18446744073709551615)
    × (stoul (codes "kB") ≡ none)
    × (stoul (codes "18446744073709551616") ≡ none)
unfolding runs
stoul_runs = (refl, refl, refl, refl)

abbrev params : List (Str × Str)
params = (codes "a", codes "1") ∷ (codes "b", codes "x=y") ∷ []

build_query_map_lem_example :
    (lookup (codes "b") (build_query_map (some (codes "a=1&b=x=y"))) ≡ some (codes "x=y"))
    × (lookup (codes "b") (build_query_map (some (codes "a=1&b=x=y&&c=3"))) ≡ some (codes "x=y"))
unfolding runs
build_query_map_lem_example =
    build_query_map_lem params (codes "c=3" ∷ []) (codes "b") (ground arith)

abbrev upload : Route
upload = record { method = post; path = codes "/up/*"; handler = 1 }

abbrev posted : Str → EvRequest
posted name = record {
  method = post;
  path = codes "/up/a";
  query = none;
  input_headers = (name, codes "2") ∷ [];
  input_buffer = codes "ok";
}

abbrev complete : EvRequest
complete = posted (codes "Content-Length")

build_header_map_lem_example :
    lookup (codes "Content-Length") (build_header_map complete.input_headers) ≡ some (codes "2")
build_header_map_lem_example = build_header_map_lem (codes "Content-Length") complete.input_headers

abbrev respelled : EvRequest
respelled = posted (codes "content-length")
