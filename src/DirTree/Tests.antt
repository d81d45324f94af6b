-- ===== src/DirTree/Tests.antt =====
-- Runs of the directory tree of src/dirtree.cpp, and its theorems at concrete inputs.
use mathlib.Core.List.{Mem}
use ch_cpp_utils.Base.{
  ℕ, ◌≡◌, refl, Bool, true, not, ◌&&◌, ◌||◌, none, some, [], ◌∷◌, Str, codes, if◌then◌else◌, arith,
  rfind, substr,
}
use ch_cpp_utils.Base.Split.{next_piece, pieces_from, pieces_at, join_by}
use ch_cpp_utils.DirTree.Tokens.{slash, tokens_at, tokens, normalize}
use ch_cpp_utils.Base.Split.Reference.{parts_of, pieces_at-eq-parts}
use ch_cpp_utils.DirTree.Tokens.Join.{here}
use ch_cpp_utils.DirTree.Node.{
  Node, get_child, has_child, has_children, delete_child, add_child, set_child, set_data,
}
use ch_cpp_utils.DirTree.Tree
use ch_cpp_utils.DirTree.Tree.{
  Report, insert, search, has_children_of, search_at, insert_at, drop_node, drop_at, drop_tree,
  parent_of,
}
use ch_cpp_utils.DirTree.Tree.Paths.{path_beq, starts_with, find_path, has_path, data_at}
use ch_cpp_utils.DirTree.Tree.Insert.{insert-refines}
use ch_cpp_utils.DirTree.Tree.Keys.{IsKeyed, insert-drop-IsKeyed}
use ch_cpp_utils.DirTree.Tree.Search.{found_at, search-eq-found_at}
use ch_cpp_utils.DirTree.Tree.Drop.{drop-refines}
use ch_cpp_utils.DirTree.Tree.Calls.{drop-complete}

-- What the runs below compute with.
runs : Unit {0}
unfolding insert insert_at search search_at has_children_of Tree.has_children_at Tree.drop drop_at
    drop_tree drop_node parent_of tokens pieces_at pieces_from normalize next_piece join_by
    find_path get_child has_child add_child set_child set_data delete_child has_children rfind
    substr
runs = tt

-- /usr/lib and /usr/*, with 1 and 2 as data
abbrev two_paths : Node ℕ
two_paths = insert (codes "/usr/*") (some 2) (insert (codes "/usr/lib") (some 1) Tree.empty)

abbrev accept : Str → Str → Bool
accept a b = true

two_paths-IsKeyed : IsKeyed two_paths
two_paths-IsKeyed =
    (insert-drop-IsKeyed (codes "/usr/*") (some 2) _
      (insert-drop-IsKeyed (codes "/usr/lib") (some 1) Tree.empty tt).0).0

search_runs :
    (search accept (codes "usr/lib") two_paths ≡ some 1)
    × (search accept (codes "/usr/bin") two_paths ≡ some 2)
    × (search accept (codes "/usr/bin/x") two_paths ≡ none)
    × (search accept (codes "/usr//bin") two_paths ≡ none)
unfolding runs
search_runs = (refl, refl, refl, refl)

-- A key is cut at a double slash.
double_slash : tokens (codes "/usr//lib") ≡ codes "." ∷ codes "usr" ∷ []
unfolding runs
double_slash = refl

drop_runs :
    (Tree.drop (codes "/usr") two_paths).1
    ≡ (codes "./usr/lib", some 1) ∷ (codes "./usr/*", some 2) ∷ (codes "./usr", none) ∷ []
unfolding runs
drop_runs = refl

-- The empty part cuts the reading off.
pieces_at-eq-parts_example : tokens_at (codes "./usr/lib//x") 2 ≡ codes "usr" ∷ codes "lib" ∷ []
unfolding parts_of
pieces_at-eq-parts_example = pieces_at-eq-parts slash (codes "./usr/lib//x") 2

insert-refines_example :
    (data_at (tokens (codes "usr/lib")) (insert (codes "/usr/lib") (some 3) two_paths) ≡ (
      if path_beq (tokens (codes "/usr/lib")) (tokens (codes "usr/lib"))
      then some 3
      else data_at (tokens (codes "usr/lib")) two_paths))
    × (has_path (tokens (codes "usr/lib")) (insert (codes "/usr/lib") (some 3) two_paths) ≡ (
        starts_with (tokens (codes "usr/lib")) (tokens (codes "/usr/lib"))
        || has_path (tokens (codes "usr/lib")) two_paths))
insert-refines_example =
    insert-refines (codes "/usr/lib") (some 3) two_paths (tokens (codes "usr/lib"))

insert-drop-IsKeyed_example :
    IsKeyed (insert (codes "/a") (some 3) two_paths) × IsKeyed (Tree.drop (codes "/a") two_paths).0
insert-drop-IsKeyed_example = insert-drop-IsKeyed (codes "/a") (some 3) two_paths two_paths-IsKeyed

search-eq-found_at_example :
    search accept (codes "/usr/bin") two_paths
    ≡ found_at accept (tokens (codes "/usr/bin")) two_paths
search-eq-found_at_example =
    search-eq-found_at accept (codes "/usr/bin") two_paths two_paths-IsKeyed

-- The null pointer of hasChildren.
has_children_of_missing : has_children_of (codes "/usr/bin") two_paths ≡ none
unfolding runs
has_children_of_missing = refl

drop-refines_example :
    (data_at (tokens (codes "/usr/lib")) (Tree.drop (codes "/usr") two_paths).0 ≡ (
      if starts_with (tokens (codes "/usr")) (tokens (codes "/usr/lib"))
      then none
      else data_at (tokens (codes "/usr/lib")) two_paths))
    × (has_path (tokens (codes "/usr/lib")) (Tree.drop (codes "/usr") two_paths).0 ≡ (
        has_path (tokens (codes "/usr/lib")) two_paths
        && not (starts_with (tokens (codes "/usr")) (tokens (codes "/usr/lib")))))
drop-refines_example =
    drop-refines (codes "/usr") two_paths (tokens (codes "/usr/lib")) two_paths-IsKeyed

drop-complete_example : Mem (codes "./usr/lib", some 1) (Tree.drop (codes "/usr") two_paths).1
unfolding runs
drop-complete_example =
    drop-complete (codes "/usr") here [] (codes "usr") (codes "lib" ∷ []) two_paths _
      two_paths-IsKeyed refl (ground arith) refl
