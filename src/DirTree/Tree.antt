-- ===== src/DirTree/Tree.antt =====
-- class DirTree of src/dirtree.cpp: insert, search, hasChildren and drop. Each while loop there
-- moves a node pointer along the tokens of the key; here it recurs on the tokens.
pub mod Paths
pub mod Insert
pub mod Keys
pub mod Search
pub mod Drop
pub mod Calls
use ch_cpp_utils.Base.{
  Bool, true, false, Option, none, some, List, [], ◌∷◌, ◌++◌, map, Str, codes, substr, rfind,
  length, tail, is_nil, nat_beq, if◌then◌else◌,
}
use ch_cpp_utils.DirTree.Tokens.{slash, first_byte, normalize, tokens_at, tokens}
use ch_cpp_utils.DirTree.Node.{
  Node, Children, node, no_child, child, key, node_data, new_node, get_child, has_child,
  has_children, add_child, delete_child, set_child, set_data,
}

-- A callback that `drop` makes: the path and the data of a dropped node.
abbrev pub Report : Type 0 → Type 0
Report D = Str × Option D

module _ {D : Type 0} where
  -- DirTree::DirTree: the root
  abbrev pub empty : Node D
  empty = new_node (codes "root")

  -- The loop of insert, from the node that it has reached.
  unfoldable pub insert_at : List Str → Option D → Node D → Node D
  insert_at [] d n = set_data d n
  insert_at (t ∷ ts) d n =
      let n' = if has_child t n then n else add_child t (new_node t) n in
      elim (get_child t n') [ none ↦ n' | some c ↦ set_child t (insert_at ts d c) n' ]

  unfoldable pub insert : Str → Option D → Node D → Node D
  insert k d root =
      let k' = normalize k in
      let k'' = if nat_beq (first_byte k') slash then tail k' else k' in
      insert_at (tokens_at k'' 0) d root

  module _ (cbk : Str → Str → Bool) where
    -- The loop of search. The wildcard is tried for the last token only.
    unfoldable pub search_at : List Str → Bool → Node D → Option D
    search_at [] found n = if found then node_data n else none
    search_at (t ∷ ts) found n = elim (get_child t n) [
      | some c ↦ search_at ts true c
      | none ↦
          if is_nil ts
          then elim (get_child (codes "*") n) [
            | none ↦ none
            | some w ↦ if cbk (key w) t then (if found then node_data w else none) else none
          ]
          else none
    ]

    unfoldable pub search : Str → Node D → Option D
    search k root = search_at (tokens k) false root

  -- The loop of hasChildren; `none` is a call through a null pointer.
  unfoldable pub has_children_at : List Str → Node D → Option Bool
  has_children_at [] n = none
  has_children_at (t ∷ []) n = elim (get_child t n) [ none ↦ none | some c ↦ some (has_children c) ]
  has_children_at (t ∷ u ∷ ts) n = elim (get_child t n) [
    | none ↦ none
    | some c ↦ has_children_at (u ∷ ts) c
  ]

  unfoldable pub has_children_of : Str → Node D → Option Bool
  has_children_of k root = has_children_at (tokens k) root

unfoldable mutual
  -- Node::dropChildren: the callbacks for the nodes below a node, and then for itself.
  pub drop_node : {D : Type 0} → Str → Node D → List (Report D)
  drop_node suffix (node k d cs) =
      drop_children (suffix ++ slash ∷ k) cs ++ (suffix ++ slash ∷ k, d) ∷ []

  pub drop_children : {D : Type 0} → Str → Children D → List (Report D)
  drop_children suffix no_child = []
  drop_children suffix (child k n cs) = drop_node suffix n ++ drop_children suffix cs

-- data->prefix.substr(0, data->prefix.rfind("/"))
unfoldable pub parent_of : Str → Str
parent_of prefix = elim (rfind prefix slash) [
  | none ↦ substr prefix 0 (length prefix)
  | some last ↦ substr prefix 0 last
]

module _ {D : Type 0} where
  -- DirTree::dropChildCbk
  abbrev pub report : Str → Report D → Report D
  report prefix (suffix, d) = (parent_of prefix ++ suffix, d)

  -- DirTree::dropTree: the parent without the child, and the callbacks in their order
  unfoldable pub drop_tree : Str → Node D → Node D → Node D × List (Report D)
  drop_tree k parent c = (delete_child (key c) parent, map (report k) (drop_node [] c))

  -- The loop of drop: `n` is the parent of the node for the first token.
  unfoldable pub drop_at : Str → List Str → Node D → Node D × List (Report D)
  drop_at k [] n = (n, [])
  drop_at k (t ∷ []) n = elim (get_child t n) [ none ↦ (n, []) | some c ↦ drop_tree k n c ]
  drop_at k (t ∷ u ∷ ts) n = elim (get_child t n) [
    | none ↦ (n, [])
    | some c ↦ let (c', calls) = drop_at k (u ∷ ts) c in (set_child t c' n, calls)
  ]

  unfoldable pub drop : Str → Node D → Node D × List (Report D)
  drop k root = drop_at (normalize k) (tokens k) root
