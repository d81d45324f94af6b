-- ===== src/Http/Router/Table.antt =====
-- The routing table as a specification: which route answers a request, in terms of the routes that
-- were added and of the tokens of their paths.
use ch_cpp_utils.Base.{
  ◌≡◌, refl, Bool, true, false, ◌&&◌, ◌||◌, Option, none, some, Bool-cases, inl, inr, List, [], ◌∷◌,
  Str, str_eq, ◌==◌, if◌then◌else◌, arith, lookup, lookup-assign, lookup-emplace,
}
use ch_cpp_utils.DirTree.Tokens.{tokens}
use ch_cpp_utils.DirTree.Node.{Node, get_child, find_child}
use ch_cpp_utils.DirTree.Tree
use ch_cpp_utils.DirTree.Tree.{search}
use ch_cpp_utils.DirTree.Tree.Paths.{path_beq, starts_with, find_path, has_path, data_at}
use ch_cpp_utils.DirTree.Tree.Insert.{insert-refines}
use ch_cpp_utils.DirTree.Tree.Keys.{IsKeyed, insert-drop-IsKeyed}
use ch_cpp_utils.DirTree.Tree.Search.{star, wild, is_deep}
use ch_cpp_utils.Http.Method.{Method, method_eq, method_beq_iff}
use ch_cpp_utils.Http.Router.{Route, Router, empty, get_dir_tree, add_route, search_cbk}

-- The routes of a method.
abbrev pub tree_of : Method → Router → Node Route
tree_of m r = elim (lookup m r.routes) [ none ↦ Tree.empty | some tree ↦ tree ]

pub tree_of-add_route :
    (m : Method) (route : Route) (r : Router)
    → tree_of m (add_route route r) ≡ (
        if route.method == m
        then Tree.insert route.path (some route) (tree_of m r)
        else tree_of m r)
unfolding add_route
tree_of-add_route m route r = ground (
  arith,
  lookup-assign route.method m (Tree.insert route.path (some route) (get_dir_tree route.method r).1)
      (get_dir_tree route.method r).0.routes,
  lookup-emplace route.method m (Tree.empty {D = Route}) r.routes,
  lookup-emplace route.method route.method (Tree.empty {D = Route}) r.routes,
  method_beq_iff route.method m,
  method_beq_iff route.method route.method,
)

-- Routes added one after the other.
abbrev pub add_all : List Route → Router → Router
add_all [] r = r
add_all (route ∷ routes) r = add_all routes (add_route route r)

-- The route added last for a method and a path of tokens.
abbrev pub last_match : Method → List Str → List Route → Option Route
last_match m p [] = none
last_match m p (route ∷ routes) = elim (last_match m p routes) [
  | some later ↦ some later
  | none ↦ if route.method == m && path_beq (tokens route.path) p then some route else none
]

-- Whether a route of the method is at the path or further down.
abbrev pub has_node : Method → List Str → List Route → Bool
has_node m p [] = false
has_node m p (route ∷ routes) =
    (route.method == m && starts_with p (tokens route.path)) || has_node m p routes

-- What the table of routes answers.
abbrev pub routed : Method → List Str → List Route → Option Route
routed m p routes =
    if has_node m p routes
    then last_match m p routes
    else if is_deep p && has_node m (wild p) routes
    then last_match m (wild p) routes
    else none

-- Every tree of the router is well formed.
abbrev pub IsValid : Router → Type 0
IsValid r = (m : Method) → IsKeyed (tree_of m r)

pub IsValid-empty : IsValid empty
unfolding lookup
IsValid-empty m = tt

pub add_route-IsValid : (route : Route) (r : Router) → IsValid r → IsValid (add_route route r)
add_route-IsValid route r h m = elim (Bool-cases (route.method == m)) [
  | inl same ↦
      rw (tree_of-add_route m route r, same)
        (insert-drop-IsKeyed route.path (some route) (tree_of m r) (h m)).0
  | inr other ↦ rw (tree_of-add_route m route r, other) (h m)
]

pub add_all-IsValid : (routes : List Route) (r : Router) → IsValid r → IsValid (add_all routes r)
add_all-IsValid [] r h = h
add_all-IsValid (route ∷ routes) r h =
    add_all-IsValid routes (add_route route r) (add_route-IsValid route r h)

pub data_at-add_all :
    (m : Method) (p : List Str) (routes : List Route) (r : Router)
    → data_at p (tree_of m (add_all routes r))
      ≡ (elim (last_match m p routes) [ some later ↦ some later | none ↦ data_at p (tree_of m r) ])
data_at-add_all m p [] r = refl
data_at-add_all m p (route ∷ routes) r = ground (
  arith,
  data_at-add_all m p routes (add_route route r),
  tree_of-add_route m route r,
  (insert-refines route.path (some route) (tree_of m r) p).0,
)

pub has_path-add_all :
    (m : Method) (p : List Str) (routes : List Route) (r : Router)
    → has_path p (tree_of m (add_all routes r)) ≡ (has_node m p routes || has_path p (tree_of m r))
has_path-add_all m p [] r = refl
has_path-add_all m p (route ∷ routes) r = ground (
  arith,
  has_path-add_all m p routes (add_route route r),
  tree_of-add_route m route r,
  (insert-refines route.path (some route) (tree_of m r) p).1,
)

-- An empty tree has nothing at a path.
pub nothing_at : (t : Str) (ts : List Str) → has_path (t ∷ ts) (Tree.empty {D = Route}) ≡ false
unfolding find_path get_child find_child
nothing_at t ts = refl

pub no_data_at : (p : List Str) → data_at p (Tree.empty {D = Route}) ≡ none
unfolding find_path get_child find_child
no_data_at [] = refl
no_data_at (t ∷ ts) = refl

pub search_cbk-star : (t : Str) → search_cbk star t ≡ true
unfolding search_cbk
search_cbk-star t = refl
