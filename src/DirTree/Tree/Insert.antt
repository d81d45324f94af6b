-- ===== src/DirTree/Tree/Insert.antt =====
-- DirTree::insert against the view by paths.
use ch_cpp_utils.Base.{
  ◌≡◌, refl, ◌∙◌, false, ◌||◌, inl, inr, Option, none, some, Option-cases, List, [], ◌∷◌, Str,
  str_eq, str_beq_iff, ◌==◌, if◌then◌else◌, arith, nat_beq,
}
use ch_cpp_utils.DirTree.Tokens.{slash, first_byte, normalize, tokens}
use ch_cpp_utils.DirTree.Node.{
  Node, node_data, new_node, find_child, get_child, add_child, set_child,
}
use ch_cpp_utils.DirTree.Node.Laws.{
  or_new, get_child-add_child, get_child-set_child, get_child-set_data, node_data-set_data,
  node_data-add_child, node_data-set_child, has_child-eq,
}
use ch_cpp_utils.DirTree.Tree.{insert_at, insert}
use ch_cpp_utils.DirTree.Tree.Paths.{path_beq, starts_with, find_path, has_path, data_at}

module _ {D : Type 0} where
  -- The child that insert goes on from, which it makes where there is none.
  abbrev pub child_for : Str → Node D → Node D
  child_for t n = or_new (get_child t n) (new_node t)

  pub insert_at_new :
      (t : Str) (ts : List Str) (d : Option D) (n : Node D)
      → get_child t n ≡ none
      → insert_at (t ∷ ts) d n
        ≡ set_child t (insert_at ts d (new_node t)) (add_child t (new_node t) n)
  unfolding insert_at
  insert_at_new t ts d n e =
      ground (arith, has_child-eq t n, get_child-add_child t t (new_node t) n, str_beq_iff t t)

  pub insert_at_old :
      (t : Str) (ts : List Str) (d : Option D) (n c : Node D)
      → get_child t n ≡ some c
      → insert_at (t ∷ ts) d n ≡ set_child t (insert_at ts d c) n
  unfolding insert_at
  insert_at_old t ts d n c e = ground (arith, has_child-eq t n)

  get_child-insert_at :
      (t q : Str) (ts : List Str) (d : Option D) (n : Node D)
      → get_child q (insert_at (t ∷ ts) d n)
        ≡ (if t == q then some (insert_at ts d (child_for t n)) else get_child q n)
  get_child-insert_at t q ts d n = elim (Option-cases (get_child t n)) [
    | inl e ↦ rw (insert_at_new t ts d n e) (
        ground (
          arith,
          get_child-add_child t t (new_node t) n,
          get_child-add_child t q (new_node t) n,
          get_child-set_child t q (insert_at ts d (new_node t)) (add_child t (new_node t) n),
          str_beq_iff t q,
          str_beq_iff t t,
        ))
    | inr (c, e) ↦ rw (insert_at_old t ts d n c e) (
        ground
          (arith, get_child-set_child t q (insert_at ts d c) n, str_beq_iff t q, str_beq_iff t t))
  ]

  node_data-insert_at :
      (t : Str) (ts : List Str) (d : Option D) (n : Node D)
      → node_data (insert_at (t ∷ ts) d n) ≡ node_data n
  node_data-insert_at t ts d n = elim (Option-cases (get_child t n)) [
    | inl e ↦
        rw (insert_at_new t ts d n e)
          (node_data-set_child t _ _ ∙ node_data-add_child t (new_node t) n)
    | inr (c, e) ↦ rw (insert_at_old t ts d n c e) (node_data-set_child t _ n)
  ]

  data_at-new_node : (k : Str) (p : List Str) → data_at p (new_node {D = D} k) ≡ none
  unfolding find_path get_child find_child
  data_at-new_node k [] = refl
  data_at-new_node k (q ∷ p) = refl

  has_path-child_for :
      (t q : Str) (p : List Str) (n : Node D)
      → has_path (q ∷ p) (child_for t n) ≡ has_path (t ∷ q ∷ p) n
  unfolding find_path get_child find_child
  has_path-child_for t q p n = ground arith

  data_at-child_for :
      (t : Str) (p : List Str) (n : Node D) → data_at p (child_for t n) ≡ data_at (t ∷ p) n
  unfolding find_path
  data_at-child_for t p n = ground (arith, data_at-new_node t p)

  pub data_at-insert_at :
      (ts p : List Str) (d : Option D) (n : Node D)
      → data_at p (insert_at ts d n) ≡ (if path_beq ts p then d else data_at p n)
  unfolding find_path
  data_at-insert_at [] [] d n = unfold insert_at in node_data-set_data d n
  data_at-insert_at [] (q ∷ p) d n = unfold insert_at in ground (arith, get_child-set_data q d n)
  data_at-insert_at (t ∷ ts) [] d n = node_data-insert_at t ts d n
  data_at-insert_at (t ∷ ts) (q ∷ p) d n = ground (
    arith,
    get_child-insert_at t q ts d n,
    data_at-insert_at ts p d (child_for t n),
    data_at-child_for t p n,
    str_beq_iff t q,
  )

  pub has_path-insert_at :
      (ts p : List Str) (d : Option D) (n : Node D)
      → has_path p (insert_at ts d n) ≡ (starts_with p ts || has_path p n)
  unfolding find_path
  has_path-insert_at ts [] d n = refl
  has_path-insert_at [] (q ∷ p) d n = unfold insert_at in ground (arith, get_child-set_data q d n)
  has_path-insert_at (t ∷ ts) (q ∷ []) d n =
      ground (arith, get_child-insert_at t q ts d n, str_beq_iff t q, str_beq_iff q t)
  has_path-insert_at (t ∷ ts) (q ∷ r ∷ p) d n = ground (
    arith,
    get_child-insert_at t q ts d n,
    has_path-insert_at ts (r ∷ p) d (child_for t n),
    has_path-child_for t r p n,
    str_beq_iff t q,
    str_beq_iff q t,
  )

first_byte-normalize : (k : Str) → nat_beq (first_byte (normalize k)) slash ≡ false
unfolding normalize
first_byte-normalize k = ground arith

module _ {D : Type 0} where
  pub insert_lem :
      (k : Str) (d : Option D) (root : Node D) → insert k d root ≡ insert_at (tokens k) d root
  unfolding insert tokens
  insert_lem k d root = rw (first_byte-normalize k)

  -- Inserting at a key makes its data what stands at the tokens of the key, keeps what stands at
  -- every other path, and makes exactly the nodes on the way to it.
  pub insert-refines :
      (k : Str) (d : Option D) (root : Node D) (p : List Str)
      → (data_at p (insert k d root) ≡ (if path_beq (tokens k) p then d else data_at p root))
        × (has_path p (insert k d root) ≡ (starts_with p (tokens k) || has_path p root))
  insert-refines k d root p =
      rw (insert_lem k d root)
        (data_at-insert_at (tokens k) p d root, has_path-insert_at (tokens k) p d root)
