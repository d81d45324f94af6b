-- ===== src/Http/Router/Routing.antt =====
-- Router::getRoute against the routing table.
use ch_cpp_utils.Base.{
  ◌≡◌, ◌≢◌, refl, sym, ◌∙◌, true, ◌&&◌, ◌||◌, Option, none, some, List, [], ◌∷◌, ◌++◌, Str, str_eq,
  ◌==◌, if◌then◌else◌, arith, lookup,
}
use ch_cpp_utils.DirTree.Tokens.{tokens}
use ch_cpp_utils.DirTree.Tokens.Laws.{tokens_cons}
use ch_cpp_utils.DirTree.Node.{Node}
use ch_cpp_utils.DirTree.Tree
use ch_cpp_utils.DirTree.Tree.{search}
use ch_cpp_utils.DirTree.Tree.Paths.{path_beq, path_beq_iff, starts_with, has_path, data_at}
use ch_cpp_utils.DirTree.Tree.Keys.{IsKeyed}
use ch_cpp_utils.DirTree.Tree.Search.{wild, last, found_at, search-eq-found_at}
use ch_cpp_utils.Http.Method.{Method, method_eq, method_beq_iff}
use ch_cpp_utils.Http.Router.{Route, Router, empty, search_cbk, get_route}
use ch_cpp_utils.Http.Router.Table.{
  tree_of, add_all, last_match, has_node, routed, IsValid, IsValid-empty, add_all-IsValid,
  data_at-add_all, has_path-add_all, nothing_at, no_data_at, search_cbk-star,
}

found_at-empty : (p : List Str) → found_at search_cbk p (Tree.empty {D = Route}) ≡ none
found_at-empty p = ground (arith, no_data_at p, no_data_at (wild p))

-- The two cases of the lookup of a method's tree.
searched :
    (path : Str) (o : Option (Node Route))
    → IsKeyed (elim o as (λ _. Node Route) [ none ↦ Tree.empty | some tree ↦ tree ])
    → (elim o as (λ _. Option Route) [ none ↦ none | some tree ↦ search search_cbk path tree ])
      ≡ found_at search_cbk
          (tokens path)
          (elim o as (λ _. Node Route) [ none ↦ Tree.empty | some tree ↦ tree ])
searched path none h = sym (found_at-empty (tokens path))
searched path (some tree) h = search-eq-found_at search_cbk path tree h

get_route-eq-found_at :
    (m : Method) (path : Str) (r : Router)
    → IsValid r
    → get_route m path r ≡ found_at search_cbk (tokens path) (tree_of m r)
unfolding get_route
get_route-eq-found_at m path r h = searched path (lookup m r.routes) (h m)

tree_of-empty : (m : Method) → tree_of m empty ≡ Tree.empty
unfolding lookup
tree_of-empty m = refl

has_path-table :
    (m : Method) (t : Str) (ts : List Str) (routes : List Route)
    → has_path (t ∷ ts) (tree_of m (add_all routes empty)) ≡ has_node m (t ∷ ts) routes
has_path-table m t ts routes =
    ground (arith, has_path-add_all m (t ∷ ts) routes empty, tree_of-empty m, nothing_at t ts)

data_at-table :
    (m : Method) (p : List Str) (routes : List Route)
    → data_at p (tree_of m (add_all routes empty)) ≡ last_match m p routes
data_at-table m p routes =
    ground (arith, data_at-add_all m p routes empty, tree_of-empty m, no_data_at p)

found_at-table :
    (m : Method) (t : Str) (ts : List Str) (routes : List Route)
    → found_at search_cbk (t ∷ ts) (tree_of m (add_all routes empty)) ≡ routed m (t ∷ ts) routes
found_at-table m t [] routes =
    ground (arith, has_path-table m t [] routes, data_at-table m (t ∷ []) routes)
found_at-table m t (u ∷ ts) routes = ground (
  arith,
  has_path-table m t (u ∷ ts) routes,
  has_path-table m t (wild (u ∷ ts)) routes,
  data_at-table m (t ∷ u ∷ ts) routes,
  data_at-table m (wild (t ∷ u ∷ ts)) routes,
  search_cbk-star (last (t ∷ u ∷ ts)),
)

-- A table built by adding routes answers a request with the route added last for its method and
-- path. If no route of the method is at that path or below it, the answer is the route added last
-- for the path with "*" in place of its last part, and without such a route there is none.
pub get_route-eq-routed :
    (m : Method) (path : Str) (routes : List Route)
    → get_route m path (add_all routes empty) ≡ routed m (tokens path) routes
get_route-eq-routed m path routes =
    let (t, ts, e) = tokens_cons path in
    get_route-eq-found_at m path (add_all routes empty) (add_all-IsValid routes empty IsValid-empty)
    ∙ rw e (found_at-table m t ts routes)

last_match-append :
    (m : Method) (p : List Str) (routes : List Route) (route : Route)
    → last_match m p (routes ++ route ∷ []) ≡ (
        if route.method == m && path_beq (tokens route.path) p
        then some route
        else last_match m p routes)
last_match-append m p [] route = refl
last_match-append m p (r ∷ routes) route = ground (arith, last_match-append m p routes route)

has_node-append :
    (m : Method) (p : List Str) (routes : List Route) (route : Route)
    → has_node m p (routes ++ route ∷ [])
      ≡ (has_node m p routes || (route.method == m && starts_with p (tokens route.path)))
has_node-append m p [] route = ground arith
has_node-append m p (r ∷ routes) route = ground (arith, has_node-append m p routes route)

-- Adding a route below a path hides the wildcard route that answered for the path: the request
-- then gets no route, unless a route was added for the path itself.
pub deeper_route_hides_wildcard :
    (m : Method) (path : Str) (routes : List Route) (deep : Route)
    → deep.method ≡ m
    → starts_with (tokens path) (tokens deep.path) ≡ true
    → tokens deep.path ≢ tokens path
    → last_match m (tokens path) routes ≡ none
    → get_route m path (add_all (routes ++ deep ∷ []) empty) ≡ none
deeper_route_hides_wildcard m path routes deep same below other bare =
    get_route-eq-routed m path (routes ++ deep ∷ [])
    ∙ ground (
      arith,
      has_node-append m (tokens path) routes deep,
      last_match-append m (tokens path) routes deep,
      method_beq_iff deep.method m,
      path_beq_iff (tokens deep.path) (tokens path),
    )
