-- ===== src/DirTree/Node/Laws.antt =====
-- The children of a node as a map: what getChild returns after each change.
use ch_cpp_utils.Base.{
  ◌≡◌, refl, true, false, Option, none, some, Str, str_eq, str_beq_iff, ◌==◌, if◌then◌else◌, arith,
}
use ch_cpp_utils.DirTree.Node.{
  Node, Children, node, no_child, child, key, node_data, find_child, get_child, has_child,
  emplace_child, add_child, erase_child, delete_child, assign_child, set_child, set_data,
}

module _ {D : Type 0} where
  abbrev pub or_new : Option (Node D) → Node D → Node D
  or_new none c = c
  or_new (some n) c = n

  abbrev pub over : Option (Node D) → Node D → Option (Node D)
  over none c = none
  over (some n) c = some c

  find_child-emplace_child :
      (t j : Str) (c : Node D) (cs : Children D)
      → find_child j (emplace_child t c cs)
        ≡ (if t == j then some (or_new (find_child t cs) c) else find_child j cs)
  unfolding find_child emplace_child
  find_child-emplace_child t j c no_child = refl
  find_child-emplace_child t j c (child k n cs) =
      ground (
        arith,
        str_beq_iff t j,
        str_beq_iff k t,
        str_beq_iff k j,
        find_child-emplace_child t j c cs,
      )

  find_child-erase_child :
      (t j : Str) (cs : Children D)
      → find_child j (erase_child t cs) ≡ (if t == j then none else find_child j cs)
  unfolding find_child erase_child
  find_child-erase_child t j no_child = ground arith
  find_child-erase_child t j (child k n cs) =
      ground
        (arith, str_beq_iff t j, str_beq_iff k t, str_beq_iff k j, find_child-erase_child t j cs)

  find_child-assign_child :
      (t j : Str) (c : Node D) (cs : Children D)
      → find_child j (assign_child t c cs)
        ≡ (if t == j then over (find_child t cs) c else find_child j cs)
  unfolding find_child assign_child
  find_child-assign_child t j c no_child = ground arith
  find_child-assign_child t j c (child k n cs) =
      ground
        (arith, str_beq_iff t j, str_beq_iff k t, str_beq_iff k j, find_child-assign_child t j c cs)

  pub get_child-add_child :
      (t j : Str) (c n : Node D)
      → get_child j (add_child t c n)
        ≡ (if t == j then some (or_new (get_child t n) c) else get_child j n)
  unfolding get_child add_child
  get_child-add_child t j c (node k d cs) = find_child-emplace_child t j c cs

  pub get_child-delete_child :
      (t j : Str) (n : Node D)
      → get_child j (delete_child t n) ≡ (if t == j then none else get_child j n)
  unfolding get_child delete_child
  get_child-delete_child t j (node k d cs) = find_child-erase_child t j cs

  pub get_child-set_child :
      (t j : Str) (c n : Node D)
      → get_child j (set_child t c n) ≡ (if t == j then over (get_child t n) c else get_child j n)
  unfolding get_child set_child
  get_child-set_child t j c (node k d cs) = find_child-assign_child t j c cs

  pub get_child-set_data :
      (j : Str) (d : Option D) (n : Node D) → get_child j (set_data d n) ≡ get_child j n
  unfolding get_child set_data
  get_child-set_data j d (node k _ cs) = refl

  pub node_data-set_data : (d : Option D) (n : Node D) → node_data (set_data d n) ≡ d
  unfolding set_data
  node_data-set_data d (node k _ cs) = refl

  pub node_data-add_child : (t : Str) (c n : Node D) → node_data (add_child t c n) ≡ node_data n
  unfolding add_child
  node_data-add_child t c (node k d cs) = refl

  pub node_data-set_child : (t : Str) (c n : Node D) → node_data (set_child t c n) ≡ node_data n
  unfolding set_child
  node_data-set_child t c (node k d cs) = refl

  pub node_data-delete_child : (t : Str) (n : Node D) → node_data (delete_child t n) ≡ node_data n
  unfolding delete_child
  node_data-delete_child t (node k d cs) = refl

  pub key-set_data : (d : Option D) (n : Node D) → key (set_data d n) ≡ key n
  unfolding set_data
  key-set_data d (node k _ cs) = refl

  pub key-add_child : (t : Str) (c n : Node D) → key (add_child t c n) ≡ key n
  unfolding add_child
  key-add_child t c (node k d cs) = refl

  pub key-set_child : (t : Str) (c n : Node D) → key (set_child t c n) ≡ key n
  unfolding set_child
  key-set_child t c (node k d cs) = refl

  pub key-delete_child : (t : Str) (n : Node D) → key (delete_child t n) ≡ key n
  unfolding delete_child
  key-delete_child t (node k d cs) = refl

  pub has_child-eq :
      (t : Str) (n : Node D)
      → has_child t n ≡ (elim (get_child t n) [ some c ↦ true | none ↦ false ])
  unfolding has_child get_child
  has_child-eq t n = refl
