-- ===== src/Http/Tests.antt =====
-- Runs of the HTTP parts, and their theorems at concrete inputs.
use ch_cpp_utils.Base.{◌≡◌, refl, none, some, [], ◌∷◌, codes, lookup, emplace, assign}
use ch_cpp_utils.Base.Split.{next_piece, pieces_from, pieces_at}
use ch_cpp_utils.DirTree.Tokens.{tokens, normalize}
use ch_cpp_utils.DirTree.Node.{get_child, has_child, add_child, set_child, set_data}
use ch_cpp_utils.DirTree.Tree.{insert, insert_at, search, search_at}
use ch_cpp_utils.Http.Method.{get, post}
use ch_cpp_utils.Http.Router.{Route, empty, get_dir_tree, add_route, get_route, search_cbk}
use ch_cpp_utils.Http.Router.Table.{add_all, routed}
use ch_cpp_utils.Http.Router.Routing.{get_route-eq-routed}

-- What the runs below compute with.
runs : Unit {0}
unfolding get_dir_tree add_route get_route search_cbk insert insert_at search search_at tokens
    pieces_at pieces_from normalize next_piece get_child has_child add_child set_child set_data
    lookup emplace assign
runs = tt

abbrev any_file : Route
any_file = record { method = get; path = codes "/files/*"; handler = 1 }

abbrev listing : Route
listing = record { method = get; path = codes "/files/new/list"; handler = 2 }

wildcard_runs :
    (get_route get (codes "/files/new") (add_all (any_file ∷ []) empty) ≡ some any_file)
    × (get_route get (codes "/files/new") (add_all (any_file ∷ listing ∷ []) empty) ≡ none)
    × (get_route post (codes "/files/new") (add_all (any_file ∷ []) empty) ≡ none)
    × (get_route get (codes "/files") (add_all (any_file ∷ []) empty) ≡ none)
unfolding runs
wildcard_runs = (refl, refl, refl, refl)

get_route-eq-routed_example :
    get_route get (codes "/files/new") (add_all (any_file ∷ listing ∷ []) empty)
    ≡ routed get (tokens (codes "/files/new")) (any_file ∷ listing ∷ [])
get_route-eq-routed_example = get_route-eq-routed get (codes "/files/new") (any_file ∷ listing ∷ [])
