-- ===== src/FsWatch/Events.antt =====
-- What the watcher tells its client about files and empty directories, and what it records.
use ch_cpp_utils.Base.{
  ℕ, ◌≡◌, ◌≢◌, refl, ◌∙◌, Bool, true, false, not, ◌&&◌, ◌||◌, none, some, Option-cases, inl, inr,
  List, [], ◌∷◌, ◌++◌, Str, codes, str_eq, str_beq_iff, nat_eq, nat_beq, ◌==◌, is_nil,
  if◌then◌else◌, arith, member, lookup,
}
use ch_cpp_utils.Base.Split.{next_piece, pieces_from, pieces_at}
use ch_cpp_utils.DirTree.Tokens.{tokens, normalize}
use ch_cpp_utils.DirTree.Tokens.Join.{here}
use ch_cpp_utils.DirTree.Node.{Node, node, no_child, child, has_children, get_child, find_child}
use ch_cpp_utils.DirTree.Tree.{has_children_of}
use ch_cpp_utils.DirTree.Tree.Paths.{path_beq, starts_with, find_path, has_path, data_at}
use ch_cpp_utils.DirTree.Tree.Insert.{insert-refines}
use ch_cpp_utils.DirTree.Tree.Search.{has_children_of_lem}
use ch_cpp_utils.Fts.{OnFileData, is_regular, is_directory, ext_of}
use ch_cpp_utils.FsWatch.Outcome.{done, fault}
use ch_cpp_utils.FsWatch.State.{TreeNode, Watch, add_to_tree}
use ch_cpp_utils.FsWatch.Handlers.{
  Callback, new_file, empty_dir, Event, get_full_path, last_byte, parent_path, check_empty_dir,
  handle_file_modify,
}

-- The path of an event in a directory.
abbrev pub path_in : Str → Str → Watch → Str
path_in dir name s =
    dir ++ ((if not (nat_beq b'/' (last_byte s.root)) then codes "/" else []) ++ name)

-- The client asked for files with this name's extension.
abbrev pub wants : Str → Watch → Bool
wants name s = s.on_new_file && (is_nil s.filters || member (ext_of name) s.filters)

tokens_of_nil : tokens [] ≡ here ∷ []
unfolding tokens pieces_at pieces_from normalize next_piece
tokens_of_nil = refl

-- The tree after addToTree of an empty path, as handleFileModify calls it.
tracked : Bool → Watch → Watch
tracked b s = if b then add_to_tree [] none none s else s

data_at-tracked :
    (b : Bool) (s : Watch) (p : List Str)
    → data_at p (tracked b s).tree
      ≡ (if b && path_beq (here ∷ []) p then none else data_at p s.tree)
unfolding tracked add_to_tree
data_at-tracked b s p = ground (arith, (insert-refines [] none s.tree p).0, tokens_of_nil)

has_path-tracked :
    (b : Bool) (s : Watch) (p : List Str)
    → has_path p (tracked b s).tree ≡ ((b && starts_with p (here ∷ [])) || has_path p s.tree)
unfolding tracked add_to_tree
has_path-tracked b s p = ground (arith, (insert-refines [] none s.tree p).1, tokens_of_nil)

-- A file that was written or moved in, read from a known descriptor, is told to the client exactly
-- if a callback is set and the filters are empty or hold its extension. The watcher does not record
-- the file: the only node that the tree can gain is ".", and with an empty-directory callback set
-- that node loses its data.
pub handle_file_modify_lem :
    (fd : ℕ) (e : Event) (s : Watch) (dir : Str)
    → lookup fd s.map ≡ some dir
    → (s' : Watch) × (handle_file_modify fd e s
        ≡ done (
          s',
          (if wants e.name s
              then new_file (record {
                name = e.name;
                ext = ext_of e.name;
                path = path_in dir e.name s;
                flags = is_regular;
              })
                ∷ []
              else []),
        ))
      × ((p : List Str)
          → data_at p s'.tree
            ≡ (if s.on_empty_dir && path_beq (here ∷ []) p then none else data_at p s.tree))
      × ((p : List Str)
          → has_path p s'.tree
            ≡ ((s.on_empty_dir && starts_with p (here ∷ [])) || has_path p s.tree))
unfolding handle_file_modify get_full_path tracked
handle_file_modify_lem fd e s dir known = (
  tracked s.on_empty_dir s,
  ground arith,
  data_at-tracked s.on_empty_dir s,
  has_path-tracked s.on_empty_dir s,
)

module _ {D : Type 0} where
  get_child_of_childless : (n : Node D) → has_children n ≡ false → (t : Str) → get_child t n ≡ none
  unfolding has_children get_child find_child
  get_child_of_childless (node k d no_child) h t = refl
  get_child_of_childless (node k d (child j c cs)) h t = cc

  find_path_below :
      (p : List Str) (t : Str) (n c : Node D)
      → find_path p n ≡ some c
      → has_path (p ++ t ∷ []) n ≡ has_path (t ∷ []) c
  unfolding find_path
  find_path_below [] t n c e = ground arith
  find_path_below (u ∷ p) t n c e = elim (Option-cases (get_child u n)) [
    | inl no_c ↦ ground arith
    | inr (c', has) ↦ ground (arith, find_path_below p t c' c)
  ]

  childless_has_none :
      (c : Node D) → has_children c ≡ false → (t : Str) → has_path (t ∷ []) c ≡ false
  unfolding find_path
  childless_has_none c h t = ground (arith, get_child_of_childless c h t)

empty_dir_parts :
    (deleted : Str) (s : Watch) (d : OnFileData)
    → check_empty_dir deleted s ≡ done (empty_dir d ∷ [])
    → (s.on_empty_dir ≡ true)
      × (d.path ≡ parent_path deleted)
      × (parent_path deleted ≢ s.root)
      × (has_children_of (parent_path deleted) s.tree ≡ some false)
unfolding check_empty_dir
empty_dir_parts deleted s d e = ground (arith, str_beq_iff (parent_path deleted) s.root)

childless_path :
    (k : Str) (tree : Node TreeNode)
    → has_children_of k tree ≡ some false
    → (has_path (tokens k) tree ≡ true) × ((t : Str) → has_path (tokens k ++ t ∷ []) tree ≡ false)
childless_path k tree h = elim (Option-cases (find_path (tokens k) tree)) [
  | inl e ↦ ground (arith, has_children_of_lem k tree)
  | inr (c, e) ↦
      let childless : has_children c ≡ false = ground (arith, has_children_of_lem k tree) in
      (ground arith, λ t. find_path_below (tokens k) t tree c e ∙ childless_has_none c childless t)
]

-- The client is told of an empty directory only when a callback is set, for the parent of the
-- deleted path, which is not the root, and when the tree has no node right below that parent.
pub check_empty_dir_sound :
    (deleted : Str) (s : Watch) (d : OnFileData)
    → check_empty_dir deleted s ≡ done (empty_dir d ∷ [])
    → (s.on_empty_dir ≡ true)
      × (d.path ≡ parent_path deleted)
      × (d.path ≢ s.root)
      × (has_path (tokens d.path) s.tree ≡ true)
      × ((t : Str) → has_path (tokens d.path ++ t ∷ []) s.tree ≡ false)
check_empty_dir_sound deleted s d e =
    let (set, same, other, none_below) = empty_dir_parts deleted s d e in
    let (there, childless) = childless_path (parent_path deleted) s.tree none_below in
    (set, same, rw same other, rw same there, rw same childless)

-- The report that a directory is empty.
abbrev pub empty_report : Str → Callback
empty_report dir = empty_dir (record { name = dir; ext = []; path = dir; flags = is_directory })

-- With a callback set, a parent of the deleted path that is a node of the tree is reported exactly
-- if it has no child and is not the root, and a parent that is no node of the tree makes the check
-- call a method of a null pointer.
pub check_empty_dir_lem :
    (deleted : Str) (s : Watch)
    → s.on_empty_dir ≡ true
    → check_empty_dir deleted s ≡ (elim (find_path (tokens (parent_path deleted)) s.tree) [
      | none ↦ fault
      | some c ↦ done (
          if has_children c || parent_path deleted == s.root
          then []
          else empty_report (parent_path deleted) ∷ [])
    ])
unfolding check_empty_dir
check_empty_dir_lem deleted s set = ground (arith, has_children_of_lem (parent_path deleted) s.tree)
