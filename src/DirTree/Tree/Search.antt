-- ===== src/DirTree/Tree/Search.antt =====
-- DirTree::search and DirTree::hasChildren against the view by paths.
use ch_cpp_utils.Base.{
  ◌≡◌, Bool, true, false, not, ◌&&◌, Option, none, some, Option-cases, inl, inr, List, [], ◌∷◌, Str,
  codes, is_nil, if◌then◌else◌, arith,
}
use ch_cpp_utils.DirTree.Tokens.{tokens}
use ch_cpp_utils.DirTree.Tokens.Laws.{tokens_cons}
use ch_cpp_utils.DirTree.Node.{Node, get_child, has_children}
use ch_cpp_utils.DirTree.Tree.{search_at, search, has_children_at, has_children_of}
use ch_cpp_utils.DirTree.Tree.Paths.{find_path, has_path, data_at}
use ch_cpp_utils.DirTree.Tree.Keys.{IsKeyed, get_child-IsKeyed}

abbrev pub star : Str
star = codes "*"

-- The path with its last token replaced by the wildcard.
abbrev pub wild : List Str → List Str
wild [] = []
wild (t ∷ []) = star ∷ []
wild (t ∷ u ∷ ts) = t ∷ wild (u ∷ ts)

abbrev pub last : List Str → Str
last [] = []
last (t ∷ []) = t
last (t ∷ u ∷ ts) = last (u ∷ ts)

-- A wildcard needs a token before it: the loop returns a match only after a first step.
abbrev pub is_deep : List Str → Bool
is_deep [] = false
is_deep (t ∷ ts) = not (is_nil ts)

module _ {D : Type 0} (cbk : Str → Str → Bool) where
  -- What search promises, in terms of the view.
  abbrev pub found_at : List Str → Node D → Option D
  found_at p root =
      if has_path p root
      then data_at p root
      else if is_deep p && has_path (wild p) root && cbk star (last p)
      then data_at (wild p) root
      else none

  -- After a first step.
  search_at-true :
      (t : Str) (ts : List Str) (n : Node D)
      → IsKeyed n
      → search_at cbk (t ∷ ts) true n ≡ (
          if has_path (t ∷ ts) n
          then data_at (t ∷ ts) n
          else if has_path (wild (t ∷ ts)) n && cbk star (last (t ∷ ts))
          then data_at (wild (t ∷ ts)) n
          else none)
  unfolding search_at find_path
  search_at-true t [] n h = elim (Option-cases (get_child t n)) [
    | inr (c, e) ↦ ground arith
    | inl e ↦ elim (Option-cases (get_child star n)) [
      | inl e' ↦ ground arith
      | inr (w, e') ↦ ground (arith, (get_child-IsKeyed star w n h e').0)
    ]
  ]
  search_at-true t (u ∷ ts) n h = elim (Option-cases (get_child t n)) [
    | inl e ↦ ground arith
    | inr (c, e) ↦ ground (arith, search_at-true u ts c (get_child-IsKeyed t c n h e).1)
  ]

  search_at-false :
      (t : Str) (ts : List Str) (n : Node D)
      → IsKeyed n
      → search_at cbk (t ∷ ts) false n ≡ found_at (t ∷ ts) n
  unfolding search_at find_path
  search_at-false t [] n h = ground arith
  search_at-false t (u ∷ ts) n h = elim (Option-cases (get_child t n)) [
    | inl e ↦ ground arith
    | inr (c, e) ↦ ground (arith, search_at-true u ts c (get_child-IsKeyed t c n h e).1)
  ]

  -- In a well-formed tree search returns the data of the node at the tokens of the key, even if
  -- it is null. If there is no such node it returns the data of the wildcard node "*" beside its
  -- last token, provided that a token stands before it and the callback accepts that token, and
  -- the null pointer otherwise.
  pub search-eq-found_at :
      (k : Str) (root : Node D) → IsKeyed root → search cbk k root ≡ found_at (tokens k) root
  unfolding search
  search-eq-found_at k root h = let (t, ts, e) = tokens_cons k in rw e (search_at-false t ts root h)

module _ {D : Type 0} where
  has_children_at-eq :
      (t : Str) (ts : List Str) (n : Node D)
      → has_children_at (t ∷ ts) n
        ≡ (elim (find_path (t ∷ ts) n) [ none ↦ none | some c ↦ some (has_children c) ])
  unfolding has_children_at find_path
  has_children_at-eq t [] n = ground arith
  has_children_at-eq t (u ∷ ts) n = elim (Option-cases (get_child t n)) [
    | inl e ↦ ground arith
    | inr (c, e) ↦ ground (arith, has_children_at-eq u ts c)
  ]

  -- hasChildren answers for a key whose node is in the tree, and says whether that node has a
  -- child. For any other key it calls a method of a null pointer.
  pub has_children_of_lem :
      (k : Str) (root : Node D)
      → has_children_of k root
        ≡ (elim (find_path (tokens k) root) [ none ↦ none | some c ↦ some (has_children c) ])
  unfolding has_children_of
  has_children_of_lem k root = let (t, ts, e) = tokens_cons k in rw e (has_children_at-eq t ts root)
