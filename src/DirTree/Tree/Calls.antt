-- ===== src/DirTree/Tree/Calls.antt =====
-- The callbacks of DirTree::drop: which paths and data it reports.
use mathlib.Core.List.{Mem, mem-append_left, mem-append_right, mem-map_of_mem, mem-cons_self}
use ch_cpp_utils.Base.{
  rfind-append, ◌≡◌, ◌≢◌, refl, ap, sym, ◌∙◌, subst, Option, some, Option-cases, Bool-cases, inl,
  inr, List, [], ◌∷◌, ◌++◌, append_assoc, Str, str_eq, ◌==◌, arith, All, substr, take-append,
}
use ch_cpp_utils.Base.Split.{join_by}
use ch_cpp_utils.DirTree.Tokens.{slash, tokens, normalize}
use ch_cpp_utils.DirTree.Tokens.Join.{IsPart, join, tokens_at-join}
use ch_cpp_utils.DirTree.Node.{
  Node, Children, node, no_child, child, key, node_data, find_child, get_child,
}
use ch_cpp_utils.DirTree.Tree as T
use ch_cpp_utils.DirTree.Tree.{Report, report, drop_node, drop_children, parent_of}
use ch_cpp_utils.DirTree.Tree.Paths.{find_path}
use ch_cpp_utils.DirTree.Tree.Keys.{IsKeyed, get_child-IsKeyed}
use ch_cpp_utils.DirTree.Tree.Drop.{calls-drop}

parent_of-append : (s t : Str) → All (λ c. c ≢ slash) t → parent_of (s ++ slash ∷ t) ≡ s
unfolding parent_of substr
parent_of-append s t h = rw (rfind-append slash s t h, parent_of) (take-append s (slash ∷ t))

join-append :
    (p : Str) (ps : List Str) (t : Str) (q : List Str)
    → join (p ∷ ps ++ t ∷ q) ≡ join (p ∷ ps) ++ slash ∷ join (t ∷ q)
unfolding join_by
join-append p [] t q = refl
join-append p (r ∷ ps) t q =
    ap (λ s. p ++ slash ∷ s) (join-append r ps t q)
    ∙ sym (append_assoc p (slash ∷ join (r ∷ ps)) (slash ∷ join (t ∷ q)))

join_one : (t : Str) → join (t ∷ []) ≡ t
unfolding join_by
join_one t = refl

path_step :
    (suffix k t : Str) (q : List Str)
    → (suffix ++ slash ∷ k) ++ slash ∷ join (t ∷ q) ≡ suffix ++ slash ∷ join (k ∷ t ∷ q)
unfolding join_by
path_step suffix k t q = append_assoc suffix (slash ∷ k) (slash ∷ join (t ∷ q))

module _ {D : Type 0} where
  find_child-calls :
      (suffix t : Str) (c : Node D) (cs : Children D) {r : Report D}
      → find_child t cs ≡ some c
      → Mem r (drop_node suffix c)
      → Mem r (drop_children suffix cs)
  unfolding find_child drop_node
  find_child-calls suffix t c no_child e m = cc
  find_child-calls suffix t c (child k n cs) {r} e m = elim (Bool-cases (k == t)) [
    | inl same ↦
        mem-append_left (drop_children suffix cs)
          (subst (λ x. Mem r (drop_node suffix x)) {x = c} {y = n} (ground arith) m)
    | inr other ↦
        mem-append_right (drop_node suffix n) (find_child-calls suffix t c cs (ground arith) m)
  ]

  drop_node_self :
      (suffix : Str) (c : Node D) → Mem (suffix ++ slash ∷ key c, node_data c) (drop_node suffix c)
  unfolding drop_node
  drop_node_self suffix (node k d cs) =
      mem-append_right (drop_children (suffix ++ slash ∷ k) cs) mem-cons_self

  drop_node_child :
      (suffix t : Str) (c n : Node D) {r : Report D}
      → get_child t n ≡ some c
      → Mem r (drop_node (suffix ++ slash ∷ key n) c)
      → Mem r (drop_node suffix n)
  unfolding drop_node get_child
  drop_node_child suffix t c (node k d cs) e m =
      mem-append_left _ (find_child-calls (suffix ++ slash ∷ k) t c cs e m)

  -- Every node at or below `n` is among the callbacks for `n`, with its path below the suffix.
  drop_node-complete :
      (q : List Str) (suffix : Str) (n m : Node D)
      → IsKeyed n
      → find_path q n ≡ some m
      → Mem (suffix ++ slash ∷ join (key n ∷ q), node_data m) (drop_node suffix n)
  unfolding find_path
  drop_node-complete [] suffix n m h e =
      subst
        (λ (x : Node D).
          Mem (suffix ++ slash ∷ join (key n ∷ []), node_data x) (drop_node suffix n))
        {x = n} {y = m} (ground arith) (rw (join_one (key n)) (drop_node_self suffix n))
  drop_node-complete (t ∷ q) suffix n m h e = elim (Option-cases (get_child t n)) [
    | inl no_c ↦ ground arith
    | inr (c, has) ↦
        let (same, keyed) = get_child-IsKeyed t c n h has in
        drop_node_child suffix t c n has (
          subst (λ (s : Str). Mem (s, node_data m) (drop_node (suffix ++ slash ∷ key n) c))
            (path_step suffix (key n) t q)
            (subst
              (λ (k : Str).
                Mem ((suffix ++ slash ∷ key n) ++ slash ∷ join (k ∷ q), node_data m)
                  (drop_node (suffix ++ slash ∷ key n) c))
              same (drop_node-complete q (suffix ++ slash ∷ key n) c m keyed (ground arith))))
  ]

  find_path-append :
      (a b : List Str) (n m : Node D)
      → find_path (a ++ b) n ≡ some m
      → (c : Node D) × (find_path a n ≡ some c) × (find_path b c ≡ some m)
  unfolding find_path
  find_path-append [] b n m e = (n, refl, e)
  find_path-append (t ∷ a) b n m e = elim (Option-cases (get_child t n)) [
    | inl no_c ↦ ground arith
    | inr (c, has) ↦
        let (c', e₁, e₂) = find_path-append a b c m (ground arith) in (c', ground arith, e₂)
  ]

  key-find_path :
      (a : List Str) (t : Str) (n c : Node D)
      → IsKeyed n
      → find_path (a ++ t ∷ []) n ≡ some c
      → (key c ≡ t) × IsKeyed c
  unfolding find_path
  key-find_path [] t n c h e = get_child-IsKeyed t c n h (ground arith)
  key-find_path (u ∷ a) t n c h e = elim (Option-cases (get_child u n)) [
    | inl no_c ↦ ground arith
    | inr (c', has) ↦ key-find_path a t c' c (get_child-IsKeyed u c' n h has).1 (ground arith)
  ]

parent_of-join :
    (p : Str) (ps : List Str) (t : Str)
    → IsPart t
    → parent_of (join (p ∷ ps ++ t ∷ [])) ≡ join (p ∷ ps)
parent_of-join p ps t h =
    ap parent_of (join-append p ps t [] ∙ ap (λ s. join (p ∷ ps) ++ slash ∷ s) (join_one t))
    ∙ parent_of-append (join (p ∷ ps)) t h.1

All-last : (ps : List Str) (t : Str) → All IsPart (ps ++ t ∷ []) → IsPart t
All-last [] t h = h.0
All-last (p ∷ ps) t h = All-last ps t h.1

module _ {D : Type 0} where
  report-join :
      (k p : Str) (ps : List Str) (t : Str) (q : List Str) (d : Option D)
      → normalize k ≡ join (p ∷ ps ++ t ∷ [])
      → IsPart t
      → report (normalize k) ([] ++ slash ∷ join (t ∷ q), d) ≡ (join ((p ∷ ps ++ t ∷ []) ++ q), d)
  report-join k p ps t q d e h =
      ap (λ (s : Str). (s, d))
        (ap (λ s. s ++ slash ∷ join (t ∷ q)) (ap parent_of e ∙ parent_of-join p ps t h)
          ∙ sym (ap join (append_assoc (p ∷ ps) (t ∷ []) q) ∙ join-append p ps t q))

  -- In a well-formed tree drop calls back for every node at or below its key: each with the whole
  -- path from the root, in its normalized spelling, and with the data of that node. The key here is
  -- one whose normalized spelling joins at least two parts, none empty and none with a slash.
  pub drop-complete :
      (k p : Str) (ps : List Str) (t : Str) (q : List Str) (root m : Node D)
      → IsKeyed root
      → normalize k ≡ join (p ∷ ps ++ t ∷ [])
      → All IsPart (p ∷ ps ++ t ∷ [])
      → find_path ((p ∷ ps ++ t ∷ []) ++ q) root ≡ some m
      → Mem (join ((p ∷ ps ++ t ∷ []) ++ q), node_data m) (T.drop k root).1
  drop-complete k p ps t q root m h e parts there =
      let (c, e₁, e₂) = find_path-append (p ∷ ps ++ t ∷ []) q root m there in
      let (same, keyed) = key-find_path (p ∷ ps) t root c h e₁ in
      let read : tokens k ≡ p ∷ ps ++ t ∷ [] =
        unfold tokens in rw e (tokens_at-join (p ∷ ps ++ t ∷ []) parts) in
      let below = rw same at (drop_node-complete q [] c m keyed e₂) in
      rw (calls-drop k root, read, e₁)
        (rw (← report-join k p ps t q (node_data m) e (All-last (p ∷ ps) t parts))
          (mem-map_of_mem (report (normalize k)) below))
