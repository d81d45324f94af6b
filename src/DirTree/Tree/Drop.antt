-- ===== src/DirTree/Tree/Drop.antt =====
-- DirTree::drop against the view by paths.
use ch_cpp_utils.Base.{
  ◌≡◌, refl, not, ◌&&◌, Option, none, some, Option-cases, inl, inr, List, [], ◌∷◌, map, Str, str_eq,
  str_beq_iff, if◌then◌else◌, arith,
}
use ch_cpp_utils.DirTree.Tokens.{tokens, normalize}
use ch_cpp_utils.DirTree.Tokens.Laws.{tokens_cons}
use ch_cpp_utils.DirTree.Node.{Node, key, get_child}
use ch_cpp_utils.DirTree.Node.Laws.{
  get_child-set_child, get_child-delete_child, node_data-set_child, node_data-delete_child,
}
use ch_cpp_utils.DirTree.Tree.{report, drop_node, drop_tree, drop_at, drop}
use ch_cpp_utils.DirTree.Tree.Paths.{find_path, has_path, data_at, starts_with}
use ch_cpp_utils.DirTree.Tree.Keys.{IsKeyed, get_child-IsKeyed}

module _ {D : Type 0} where
  -- What stands at a path after the nodes at and below `ts` are gone.
  abbrev pub gone : List Str → List Str → Node D → Option D
  gone ts p n = if starts_with ts p then none else data_at p n

  data_at-drop_at :
      (k t : Str) (ts p : List Str) (n : Node D)
      → IsKeyed n
      → data_at p (drop_at k (t ∷ ts) n).0 ≡ gone (t ∷ ts) p n
  unfolding find_path drop_at drop_tree
  data_at-drop_at k t [] [] n h = elim (Option-cases (get_child t n)) [
    | inl e ↦ rw (e, drop_at)
    | inr (c, e) ↦ rw (e, drop_at) (node_data-delete_child (key c) n)
  ]
  data_at-drop_at k t [] (q ∷ p) n h = elim (Option-cases (get_child t n)) [
    | inl e ↦ ground (arith, str_beq_iff t q)
    | inr (c, e) ↦ ground (
      arith,
      get_child-delete_child (key c) q n,
      (get_child-IsKeyed t c n h e).0,
      str_beq_iff t q,
    )
  ]
  data_at-drop_at k t (u ∷ ts) [] n h = elim (Option-cases (get_child t n)) [
    | inl e ↦ rw (e, drop_at)
    | inr (c, e) ↦ rw (e, drop_at) (node_data-set_child t _ n)
  ]
  data_at-drop_at k t (u ∷ ts) (q ∷ p) n h = elim (Option-cases (get_child t n)) [
    | inl e ↦ ground (arith, str_beq_iff t q)
    | inr (c, e) ↦ ground (
      arith,
      get_child-set_child t q (drop_at k (u ∷ ts) c).0 n,
      data_at-drop_at k u ts p c (get_child-IsKeyed t c n h e).1,
      str_beq_iff t q,
    )
  ]

  has_path-drop_at :
      (k t : Str) (ts p : List Str) (n : Node D)
      → IsKeyed n
      → has_path p (drop_at k (t ∷ ts) n).0 ≡ (has_path p n && not (starts_with (t ∷ ts) p))
  unfolding find_path drop_at drop_tree
  has_path-drop_at k t [] [] n h = refl
  has_path-drop_at k t [] (q ∷ p) n h = elim (Option-cases (get_child t n)) [
    | inl e ↦ ground (arith, str_beq_iff t q)
    | inr (c, e) ↦ ground (
      arith,
      get_child-delete_child (key c) q n,
      (get_child-IsKeyed t c n h e).0,
      str_beq_iff t q,
    )
  ]
  has_path-drop_at k t (u ∷ ts) [] n h = refl
  has_path-drop_at k t (u ∷ ts) (q ∷ p) n h = elim (Option-cases (get_child t n)) [
    | inl e ↦ ground (arith, str_beq_iff t q)
    | inr (c, e) ↦ ground (
      arith,
      get_child-set_child t q (drop_at k (u ∷ ts) c).0 n,
      has_path-drop_at k u ts p c (get_child-IsKeyed t c n h e).1,
      str_beq_iff t q,
    )
  ]

  calls-drop_at :
      (k t : Str) (ts : List Str) (n : Node D)
      → (drop_at k (t ∷ ts) n).1
        ≡ (elim (find_path (t ∷ ts) n) [ none ↦ [] | some c ↦ map (report k) (drop_node [] c) ])
  unfolding find_path drop_at drop_tree
  calls-drop_at k t [] n = elim (Option-cases (get_child t n)) [
    | inl e ↦ rw (e, drop_at)
    | inr (c, e) ↦ rw (e, drop_at)
  ]
  calls-drop_at k t (u ∷ ts) n = elim (Option-cases (get_child t n)) [
    | inl e ↦ rw (e, drop_at)
    | inr (c, e) ↦ rw (e, drop_at) (calls-drop_at k u ts c)
  ]

  pub calls-drop :
      (k : Str) (root : Node D)
      → (drop k root).1 ≡ (elim (find_path (tokens k) root) [
        | none ↦ []
        | some c ↦ map (report (normalize k)) (drop_node [] c)
      ])
  unfolding drop
  calls-drop k root = let (t, ts, e) = tokens_cons k in rw e (calls-drop_at (normalize k) t ts root)

  -- In a well-formed tree drop removes exactly the nodes at and below the tokens of its key, and
  -- keeps the data of every other node.
  pub drop-refines :
      (k : Str) (root : Node D) (p : List Str)
      → IsKeyed root
      → (data_at p (drop k root).0 ≡ (if starts_with (tokens k) p then none else data_at p root))
        × (has_path p (drop k root).0 ≡ (has_path p root && not (starts_with (tokens k) p)))
  unfolding drop
  drop-refines k root p h =
      let (t, ts, e) = tokens_cons k in
      rw e
        (data_at-drop_at (normalize k) t ts p root h, has_path-drop_at (normalize k) t ts p root h)
