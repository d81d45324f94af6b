-- ===== src/FsWatch/State.antt =====
-- The state of FsWatch, addToTree, addWatch, dropCbk and removeWatch.
use ch_cpp_utils.Base.{
  ℕ, Bool, true, false, ◌&&◌, Option, none, some, List, [], ◌∷◌, Str, str_eq, nat_eq, is_nil,
  if◌then◌else◌, Assoc, emplace, member, include, exclude,
}
use ch_cpp_utils.DirTree.Node.{Node}
use ch_cpp_utils.DirTree.Tree
use ch_cpp_utils.DirTree.Tree.{Report}
use ch_cpp_utils.FsWatch.Outcome.{Outcome, done, exited, fault, ◌>>=◌}

-- struct TreeNode; `none` is a descriptor of -1
pub record TreeNode : Type 0 where
  pub path : Str
  pub fd : Option ℕ
  pub wd : Option ℕ

-- The members that the handlers use. `on_new_file` and `on_empty_dir` say whether a callback is
-- set, and `closed` holds the descriptors that were closed, the last one first.
pub record Watch : Type 0 where
  pub root : Str
  pub map : Assoc ℕ Str
  pub set : List Str
  pub filters : List Str
  pub on_new_file : Bool
  pub on_empty_dir : Bool
  pub tree : Node TreeNode
  pub closed : List (Option ℕ)

-- What inotify_init1 and inotify_add_watch return; `none` is -1.
pub record Kernel : Type 0 where
  pub inotify_fd : Option ℕ
  pub watch_fd : Option ℕ

abbrev pub is_unset : Option ℕ → Bool
is_unset none = true
is_unset (some n) = false

unfoldable pub add_to_tree : Str → Option ℕ → Option ℕ → Watch → Watch
add_to_tree dir fd wd s =
    let node =
      if is_nil dir && is_unset fd && is_unset wd
      then none
      else some (record { path = dir; fd = fd; wd = wd }) in
    record s { tree = Tree.insert dir node s.tree }

unfoldable pub remove_from_tree : Str → Watch → Watch
remove_from_tree dir s = record s { tree = (Tree.drop dir s.tree).0 }

unfoldable pub add_watch : Str → Kernel → Watch → Outcome Watch
add_watch dir k s = if member dir s.set then done s else elim k.inotify_fd [
  | none ↦ exited
  | some fd ↦ done (
      add_to_tree dir (some fd) k.watch_fd
        (record s { map = emplace fd dir s.map; set = include dir s.set }))
]

-- FsWatch::dropCbk; a node with no data is read through a null pointer
unfoldable pub drop_cbk : Report TreeNode → Watch → Outcome Watch
drop_cbk (path, none) s = fault
drop_cbk (path, some node) s =
    done (record s { set = exclude path s.set; closed = node.fd ∷ s.closed })

-- The callbacks of a drop, in their order.
unfoldable pub drop_cbks : List (Report TreeNode) → Watch → Outcome Watch
drop_cbks [] s = done s
drop_cbks (r ∷ calls) s = do s' ← drop_cbk r s; drop_cbks calls s'

unfoldable pub remove_watch : Str → Watch → Outcome Watch
remove_watch dir s = do
  let (tree', calls) = Tree.drop dir s.tree
  s' ← drop_cbks calls s
  done (record s' { tree = tree' })
