-- ===== src/DirTree/Node.antt =====
-- class Node of src/dirtree.cpp. `Option D` is the void* of a node, `none` its null pointer. The
-- children are a map from key to node, in the order in which the program would iterate.
pub mod Laws
use ch_cpp_utils.Base.{Bool, true, false, Option, none, some, Str, str_eq, ◌==◌, if◌then◌else◌}

mutual
  pub data Node (D : Type 0) : Type 0 where
    node : Str → Option D → Children D → Node D

  pub data Children (D : Type 0) : Type 0 where
    no_child : Children D
    child : Str → Node D → Children D → Children D

module _ {D : Type 0} where
  abbrev pub key : Node D → Str
  key (node k d cs) = k

  abbrev pub node_data : Node D → Option D
  node_data (node k d cs) = d

  abbrev pub children : Node D → Children D
  children (node k d cs) = cs

  -- new Node() and setKey
  abbrev pub new_node : Str → Node D
  new_node k = node k none no_child

  -- children.find(t)
  unfoldable pub find_child : Str → Children D → Option (Node D)
  find_child t no_child = none
  find_child t (child k n cs) = if k == t then some n else find_child t cs

  unfoldable pub get_child : Str → Node D → Option (Node D)
  unfolding find_child
  get_child t n = find_child t (children n)

  unfoldable pub has_child : Str → Node D → Bool
  unfolding find_child
  has_child t n = elim (find_child t (children n)) [ some c ↦ true | none ↦ false ]

  unfoldable pub has_children : Node D → Bool
  has_children n = elim (children n) [ no_child ↦ false | child k c cs ↦ true ]

  -- children.insert, which keeps an entry that is there
  unfoldable pub emplace_child : Str → Node D → Children D → Children D
  emplace_child t c no_child = child t c no_child
  emplace_child t c (child k n cs) =
      if k == t then child k n cs else child k n (emplace_child t c cs)

  unfoldable pub add_child : Str → Node D → Node D → Node D
  unfolding emplace_child
  add_child t c (node k d cs) = node k d (emplace_child t c cs)

  unfoldable pub erase_child : Str → Children D → Children D
  erase_child t no_child = no_child
  erase_child t (child k n cs) =
      let rest = erase_child t cs in if k == t then rest else child k n rest

  unfoldable pub delete_child : Str → Node D → Node D
  unfolding erase_child
  delete_child t (node k d cs) = node k d (erase_child t cs)

  -- A change of the node to which the entry `t` points.
  unfoldable pub assign_child : Str → Node D → Children D → Children D
  assign_child t c no_child = no_child
  assign_child t c (child k n cs) = if k == t then child k c cs else child k n (assign_child t c cs)

  unfoldable pub set_child : Str → Node D → Node D → Node D
  unfolding assign_child
  set_child t c (node k d cs) = node k d (assign_child t c cs)

  unfoldable pub set_data : Option D → Node D → Node D
  set_data d (node k _ cs) = node k d cs
