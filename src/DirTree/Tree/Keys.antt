-- ===== src/DirTree/Tree/Keys.antt =====
-- Well-formed directory trees: every node has the key under which its parent holds it.
use ch_cpp_utils.Base.{
  ◌≡◌, refl, Option, some, Option-cases, Bool-cases, sym, ◌∙◌, inl, inr, List, [], ◌∷◌, Str, str_eq,
  str_beq_iff, ◌==◌, arith,
}
use ch_cpp_utils.DirTree.Node.Laws.{key-add_child, key-set_child, key-set_data, key-delete_child}
use ch_cpp_utils.DirTree.Tree.{insert_at, drop_at, drop_tree, insert, drop}
use ch_cpp_utils.DirTree.Tokens.{tokens, normalize}
use ch_cpp_utils.DirTree.Tree.Insert.{insert_at_new, insert_at_old, insert_lem}
use ch_cpp_utils.DirTree.Node.{
  Node, Children, node, no_child, child, key, new_node, find_child, get_child, emplace_child,
  add_child, erase_child, delete_child, assign_child, set_child, set_data,
}

abbrev mutual
  pub IsKeyed : {D : Type 0} → Node D → Type 0
  IsKeyed (node k d cs) = AreKeyed cs

  pub AreKeyed : {D : Type 0} → Children D → Type 0
  AreKeyed no_child = Unit
  AreKeyed (child k n cs) = (key n ≡ k) × IsKeyed n × AreKeyed cs

module _ {D : Type 0} where
  find_child-IsKeyed :
      (t : Str) (c : Node D) (cs : Children D)
      → AreKeyed cs
      → find_child t cs ≡ some c
      → (key c ≡ t) × IsKeyed c
  unfolding find_child
  find_child-IsKeyed t c no_child h e = cc
  find_child-IsKeyed t c (child k n cs) (hk, hn, hs) e = elim (Bool-cases (k == t)) [
    | inl same ↦
        let n≡c : n ≡ c = ground arith in
        (rw (← n≡c) (hk ∙ (str_beq_iff k t).0 same), rw (← n≡c) hn)
    | inr other ↦ find_child-IsKeyed t c cs hs (ground arith)
  ]

  emplace_child-AreKeyed :
      (t : Str) (c : Node D) (cs : Children D)
      → key c ≡ t
      → IsKeyed c
      → AreKeyed cs
      → AreKeyed (emplace_child t c cs)
  unfolding emplace_child
  emplace_child-AreKeyed t c no_child e h hs = (e, h, tt)
  emplace_child-AreKeyed t c (child k n cs) e h (hk, hn, hs) = elim (Bool-cases (k == t)) [
    | inl same ↦ rw same (hk, hn, hs)
    | inr other ↦ rw other (hk, hn, emplace_child-AreKeyed t c cs e h hs)
  ]

  assign_child-AreKeyed :
      (t : Str) (c : Node D) (cs : Children D)
      → key c ≡ t
      → IsKeyed c
      → AreKeyed cs
      → AreKeyed (assign_child t c cs)
  unfolding assign_child
  assign_child-AreKeyed t c no_child e h hs = tt
  assign_child-AreKeyed t c (child k n cs) e h (hk, hn, hs) = elim (Bool-cases (k == t)) [
    | inl same ↦ rw same (e ∙ sym ((str_beq_iff k t).0 same), h, hs)
    | inr other ↦ rw other (hk, hn, assign_child-AreKeyed t c cs e h hs)
  ]

  erase_child-AreKeyed : (t : Str) (cs : Children D) → AreKeyed cs → AreKeyed (erase_child t cs)
  unfolding erase_child
  erase_child-AreKeyed t no_child hs = tt
  erase_child-AreKeyed t (child k n cs) (hk, hn, hs) = elim (Bool-cases (k == t)) [
    | inl same ↦ rw same (erase_child-AreKeyed t cs hs)
    | inr other ↦ rw other (hk, hn, erase_child-AreKeyed t cs hs)
  ]

  pub get_child-IsKeyed :
      (t : Str) (c n : Node D) → IsKeyed n → get_child t n ≡ some c → (key c ≡ t) × IsKeyed c
  unfolding get_child
  get_child-IsKeyed t c (node k d cs) h e = find_child-IsKeyed t c cs h e

  add_child-IsKeyed :
      (t : Str) (c n : Node D) → key c ≡ t → IsKeyed c → IsKeyed n → IsKeyed (add_child t c n)
  unfolding add_child
  add_child-IsKeyed t c (node k d cs) e h hn = emplace_child-AreKeyed t c cs e h hn

  set_child-IsKeyed :
      (t : Str) (c n : Node D) → key c ≡ t → IsKeyed c → IsKeyed n → IsKeyed (set_child t c n)
  unfolding set_child
  set_child-IsKeyed t c (node k d cs) e h hn = assign_child-AreKeyed t c cs e h hn

  delete_child-IsKeyed : (t : Str) (n : Node D) → IsKeyed n → IsKeyed (delete_child t n)
  unfolding delete_child
  delete_child-IsKeyed t (node k d cs) hn = erase_child-AreKeyed t cs hn

  set_data-IsKeyed : (d : Option D) (n : Node D) → IsKeyed n → IsKeyed (set_data d n)
  unfolding set_data
  set_data-IsKeyed d (node k _ cs) hn = hn

  key-insert_at : (ts : List Str) (d : Option D) (n : Node D) → key (insert_at ts d n) ≡ key n
  key-insert_at [] d n = unfold insert_at in key-set_data d n
  key-insert_at (t ∷ ts) d n = elim (Option-cases (get_child t n)) [
    | inl e ↦ rw (insert_at_new t ts d n e) (key-set_child t _ _ ∙ key-add_child t (new_node t) n)
    | inr (c, e) ↦ rw (insert_at_old t ts d n c e) (key-set_child t _ n)
  ]

  insert_at-IsKeyed :
      (ts : List Str) (d : Option D) (n : Node D) → IsKeyed n → IsKeyed (insert_at ts d n)
  insert_at-IsKeyed [] d n h = unfold insert_at in set_data-IsKeyed d n h
  insert_at-IsKeyed (t ∷ ts) d n h = elim (Option-cases (get_child t n)) [
    | inl e ↦ rw (insert_at_new t ts d n e) (
        set_child-IsKeyed t _ _ (key-insert_at ts d (new_node t))
          (insert_at-IsKeyed ts d (new_node t) tt) (add_child-IsKeyed t (new_node t) n refl tt h))
    | inr (c, e) ↦
        let (same, keyed) = get_child-IsKeyed t c n h e in
        rw (insert_at_old t ts d n c e)
          (set_child-IsKeyed t _ n (key-insert_at ts d c ∙ same) (insert_at-IsKeyed ts d c keyed) h)
  ]

  key-drop_at : (k : Str) (ts : List Str) (n : Node D) → key (drop_at k ts n).0 ≡ key n
  unfolding drop_at drop_tree
  key-drop_at k [] n = refl
  key-drop_at k (t ∷ []) n = elim (Option-cases (get_child t n)) [
    | inl e ↦ rw (e, drop_at)
    | inr (c, e) ↦ rw (e, drop_at) (key-delete_child (key c) n)
  ]
  key-drop_at k (t ∷ u ∷ ts) n = elim (Option-cases (get_child t n)) [
    | inl e ↦ rw (e, drop_at)
    | inr (c, e) ↦ rw (e, drop_at) (key-set_child t _ n)
  ]

  drop_at-IsKeyed : (k : Str) (ts : List Str) (n : Node D) → IsKeyed n → IsKeyed (drop_at k ts n).0
  unfolding drop_at drop_tree
  drop_at-IsKeyed k [] n h = h
  drop_at-IsKeyed k (t ∷ []) n h = elim (Option-cases (get_child t n)) [
    | inl e ↦ rw (e, drop_at) h
    | inr (c, e) ↦ rw (e, drop_at) (delete_child-IsKeyed (key c) n h)
  ]
  drop_at-IsKeyed k (t ∷ u ∷ ts) n h = elim (Option-cases (get_child t n)) [
    | inl e ↦ rw (e, drop_at) h
    | inr (c, e) ↦
        let (same, keyed) = get_child-IsKeyed t c n h e in
        rw (e, drop_at)
          (set_child-IsKeyed t _ n (key-drop_at k (u ∷ ts) c ∙ same)
            (drop_at-IsKeyed k (u ∷ ts) c keyed) h)
  ]

  -- Insertion and removal keep a tree well formed: every node keeps the key under which its parent
  -- holds it, which is what drop relies on.
  pub insert-drop-IsKeyed :
      (k : Str) (d : Option D) (root : Node D)
      → IsKeyed root
      → IsKeyed (insert k d root) × IsKeyed (drop k root).0
  unfolding drop
  insert-drop-IsKeyed k d root h = (
    rw (insert_lem k d root) (insert_at-IsKeyed (tokens k) d root h),
    drop_at-IsKeyed (normalize k) (tokens k) root h,
  )
