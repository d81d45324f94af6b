-- ===== src/FsWatch/Invariant.antt =====
-- The directory tree of the watcher stays well formed through every handler.
use ch_cpp_utils.Base.{
  if_keeps, ℕ, Bool, true, false, Option, none, some, List, [], ◌∷◌, Str, str_eq, nat_eq,
  if◌then◌else◌, member, emplace, include,
}
use ch_cpp_utils.DirTree.Tree
use ch_cpp_utils.DirTree.Tree.{Report}
use ch_cpp_utils.DirTree.Tree.Keys.{IsKeyed, insert-drop-IsKeyed}
use ch_cpp_utils.Fts.{OnFileFlag, OnFileData, is_regular, is_directory}
use ch_cpp_utils.FsWatch.Outcome.{Outcome, done, exited, Ensures, Ensures-bind}
use ch_cpp_utils.FsWatch.State.{
  TreeNode, Watch, Kernel, add_to_tree, remove_from_tree, add_watch, drop_cbk, drop_cbks,
  remove_watch,
}
use ch_cpp_utils.FsWatch.Handlers.{Callback, Handled, and_then, handle_if, on_file, on_files}

abbrev pub HasTree : Watch → Type 0
HasTree s = IsKeyed s.tree

abbrev pub HandledTree : Watch × List Callback → Type 0
HandledTree (s, calls) = IsKeyed s.tree

pub add_to_tree-HasTree :
    (dir : Str) (fd wd : Option ℕ) (s : Watch) → HasTree s → HasTree (add_to_tree dir fd wd s)
unfolding add_to_tree
add_to_tree-HasTree dir fd wd s h = (insert-drop-IsKeyed dir _ s.tree h).0

pub remove_from_tree-HasTree :
    (dir : Str) (s : Watch) → HasTree s → HasTree (remove_from_tree dir s)
unfolding remove_from_tree
remove_from_tree-HasTree dir s h = (insert-drop-IsKeyed dir none s.tree h).1

pub add_watch-HasTree :
    (dir : Str) (k : Kernel) (s : Watch) → HasTree s → Ensures HasTree (add_watch dir k s)
unfolding add_watch
add_watch-HasTree dir k s h = go (member dir s.set) k.inotify_fd
  where
    go :
        (b : Bool) (o : Option ℕ)
        → Ensures HasTree (
            if b then done s else elim o as (λ _. Outcome Watch) [
              | none ↦ exited
              | some fd ↦ done (
                  add_to_tree dir
                    (some fd)
                    k.watch_fd
                    (record s { map = emplace fd dir s.map; set = include dir s.set }))
            ])
    go true o = h
    go false none = tt
    go false (some fd) = add_to_tree-HasTree dir (some fd) k.watch_fd _ h

pub drop_cbks-HasTree :
    (calls : List (Report TreeNode)) (s : Watch) → HasTree s → Ensures HasTree (drop_cbks calls s)
unfolding drop_cbks drop_cbk
drop_cbks-HasTree [] s h = h
drop_cbks-HasTree ((path, none) ∷ calls) s h = tt
drop_cbks-HasTree ((path, some n) ∷ calls) s h = drop_cbks-HasTree calls _ h

pub remove_watch-HasTree :
    (dir : Str) (s : Watch) → HasTree s → Ensures HasTree (remove_watch dir s)
unfolding remove_watch
remove_watch-HasTree dir s h =
    Ensures-bind HasTree HasTree (drop_cbks (Tree.drop dir s.tree).1 s) _
      (drop_cbks-HasTree (Tree.drop dir s.tree).1 s h)
      (λ s' h'. (insert-drop-IsKeyed dir none s.tree h).1)

pub if_tracked-HasTree :
    (b : Bool) (dir : Str) (s : Watch)
    → HasTree s
    → HasTree (if b then add_to_tree dir none none s else s)
if_tracked-HasTree b dir s h = if_keeps HasTree b (add_to_tree-HasTree dir none none s h) h

pub on_file-HasTree :
    (kernel : Str → Kernel) (d : OnFileData) (s : Watch)
    → HasTree s
    → Ensures HasTree (on_file kernel d s)
unfolding on_file
on_file-HasTree kernel d s h = go d.flags
  where
    go :
        (f : OnFileFlag)
        → Ensures HasTree (elim f as (λ _. Outcome Watch) [
          | is_directory ↦ add_watch d.path (kernel d.path) s
          | is_regular ↦ done (if s.on_empty_dir then add_to_tree d.path none none s else s)
        ])
    go is_directory = add_watch-HasTree d.path (kernel d.path) s h
    go is_regular = if_tracked-HasTree s.on_empty_dir d.path s h

pub on_files-HasTree :
    (kernel : Str → Kernel) (ds : List OnFileData) (s : Watch)
    → HasTree s
    → Ensures HasTree (on_files kernel ds s)
unfolding on_files
on_files-HasTree kernel [] s h = h
on_files-HasTree kernel (d ∷ ds) s h =
    Ensures-bind HasTree HasTree (on_file kernel d s) (on_files kernel ds)
      (on_file-HasTree kernel d s h) (on_files-HasTree kernel ds)

pub and_then-HasTree :
    (m : Handled) (next : Watch → Handled)
    → Ensures HandledTree m
    → ((s : Watch) → HasTree s → Ensures HandledTree (next s))
    → Ensures HandledTree (and_then m next)
and_then-HasTree m next h k =
    Ensures-bind HandledTree HandledTree m _ h
      λ (s, first) hs. Ensures-bind HandledTree HandledTree (next s) _ (k s hs) λ r hr. hr

-- A handler that the event asks for or not.
pub handle_if-HasTree :
    (b : Bool) (handle : Watch → Handled) (s : Watch)
    → HasTree s
    → ((s' : Watch) → HasTree s' → Ensures HandledTree (handle s'))
    → Ensures HandledTree (handle_if b handle s)
handle_if-HasTree true handle s h k = k s h
handle_if-HasTree false handle s h k = h
