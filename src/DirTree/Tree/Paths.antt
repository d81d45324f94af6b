-- ===== src/DirTree/Tree/Paths.antt =====
-- The abstract view of a directory tree: the node and the data that stand at a path of tokens.
use ch_cpp_utils.Base.{
  ◌≡◌, ◌↔◌, Bool, true, false, ◌&&◌, Option, none, some, List, [], ◌∷◌, Str, str_beq, str_beq_iff,
  arith,
}
use ch_cpp_utils.DirTree.Node.{Node, node_data, get_child}

abbrev pub path_beq : List Str → List Str → Bool
path_beq [] [] = true
path_beq (s ∷ p) (t ∷ q) = str_beq s t && path_beq p q
path_beq _ _ = false

pub path_beq_iff : (p q : List Str) → (path_beq p q ≡ true) ↔ (p ≡ q)
path_beq_iff [] [] = ground arith
path_beq_iff [] (t ∷ q) = ground arith
path_beq_iff (s ∷ p) [] = ground arith
path_beq_iff (s ∷ p) (t ∷ q) = ground (arith, str_beq_iff s t, path_beq_iff p q)

-- `p` is `q` or goes on from `q`.
abbrev pub starts_with : List Str → List Str → Bool
starts_with [] p = true
starts_with (t ∷ q) [] = false
starts_with (t ∷ q) (s ∷ p) = str_beq t s && starts_with q p

module _ {D : Type 0} where
  unfoldable pub find_path : List Str → Node D → Option (Node D)
  find_path [] n = some n
  find_path (t ∷ ts) n = elim (get_child t n) [ none ↦ none | some c ↦ find_path ts c ]

  abbrev pub has_path : List Str → Node D → Bool
  has_path p n = elim (find_path p n) [ none ↦ false | some c ↦ true ]

  -- What the node at a path holds; `none` also where there is no node.
  abbrev pub data_at : List Str → Node D → Option D
  data_at p n = elim (find_path p n) [ none ↦ none | some c ↦ node_data c ]
