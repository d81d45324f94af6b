-- ===== src/Http/Router.antt =====
-- class Router of src/http/server/http-router.cpp: one directory tree of routes for each method.
pub mod Table
pub mod Routing
use ch_cpp_utils.Base.{
  ℕ, Bool, true, false, Option, none, some, List, [], ◌∷◌, Str, codes, str_eq, ◌==◌, if◌then◌else◌,
  Assoc, lookup, emplace, assign,
}
use ch_cpp_utils.DirTree.Node.{Node}
use ch_cpp_utils.DirTree.Tree
use ch_cpp_utils.DirTree.Tree.{search}
use ch_cpp_utils.Http.Method.{Method, method_eq}

-- class Route; the handler stands for `onrequest` and `this_`
pub record Route : Type 0 where
  pub method : Method
  pub path : Str
  pub handler : ℕ

pub record Router : Type 0 where
  pub routes : Assoc Method (Node Route)

abbrev pub empty : Router
empty = record { routes = [] }

-- Router::getDirTree, with the tree that it inserts for a new method
unfoldable pub get_dir_tree : Method → Router → Router × Node Route
get_dir_tree m r = elim (lookup m r.routes) [
  | none ↦ (record r { routes = emplace m Tree.empty r.routes }, Tree.empty)
  | some tree ↦ (r, tree)
]

-- Router::addRoute; the tree is changed through its pointer in the map
unfoldable pub add_route : Route → Router → Router
unfolding get_dir_tree
add_route route r =
    let (r', tree) = get_dir_tree route.method r in
    record r' { routes = assign route.method (Tree.insert route.path (some route) tree) r'.routes }

unfoldable pub search_cbk : Str → Str → Bool
search_cbk tree_token search_token = if tree_token == codes "*" then true else false

unfoldable pub get_route : Method → Str → Router → Option Route
get_route m path r = elim (lookup m r.routes) [
  | none ↦ none
  | some tree ↦ search search_cbk path tree
]
