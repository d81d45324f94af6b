-- ===== src/FsWatch/Tests.antt =====
-- Runs of the watcher of src/fs-watch.cpp, and its theorems at concrete inputs.
use ch_cpp_utils.Base.{
  ℕ, ◌≡◌, refl, true, false, ◌||◌, some, List, [], ◌∷◌, Str, codes, str_eq, nat_eq, ◌==◌,
  if◌then◌else◌, arith, lookup, emplace, member, include, exclude, rfind, substr,
}
use ch_cpp_utils.Base.Split.{next_piece, pieces_from, pieces_at, join_by}
use ch_cpp_utils.DirTree.Tokens.{tokens, normalize}
use ch_cpp_utils.DirTree.Tokens.Join.{here}
use ch_cpp_utils.DirTree.Node.{
  Node, Children, get_child, has_child, has_children, add_child, set_child, set_data, delete_child,
}
use ch_cpp_utils.DirTree.Tree
use ch_cpp_utils.DirTree.Tree.{
  insert_at, has_children_of, has_children_at, drop_node, parent_of, drop_tree, drop_at,
}
use ch_cpp_utils.DirTree.Tree.Paths.{path_beq, find_path, data_at}
use ch_cpp_utils.Fts.{
  OnFileData, is_directory, is_regular, fts_d, has_flag, is_hidden, ext_of, visit_file, visit_dir,
  visit, walk,
}
use ch_cpp_utils.FsWatch.Outcome.{done}
use ch_cpp_utils.FsWatch.State.{
  Watch, Kernel, add_to_tree, add_watch, drop_cbk, drop_cbks, remove_watch,
}
use ch_cpp_utils.FsWatch.Handlers.{
  Event, new_file, events, drained, get_full_path, last_byte, parent_path, check_empty_dir,
  handle_file_modify, epoll_round, new_watch,
}
use ch_cpp_utils.FsWatch.Removal.{remove_watch-keeps_absolute, remove_watch-forgets}
use ch_cpp_utils.FsWatch.Adding.{watched_node, with_watch, add_watch-watches}
use ch_cpp_utils.FsWatch.Written.{epoll_round-tells_written}

-- What the runs below compute with.
runs : Unit {0}
unfolding has_flag is_hidden ext_of visit_file visit_dir visit walk Tree.insert insert_at
    has_children_of has_children_at Tree.drop drop_at drop_tree drop_node parent_of tokens pieces_at
    pieces_from normalize next_piece join_by find_path get_child has_child add_child set_child
    set_data delete_child has_children rfind substr new_watch add_to_tree add_watch drop_cbk
    drop_cbks remove_watch get_full_path last_byte parent_path check_empty_dir handle_file_modify
    lookup emplace member include exclude
runs = tt

abbrev kernel : ℕ → Kernel
kernel fd = record { inotify_fd = some fd; watch_fd = some 1 }

-- A watcher of a root that watches the root and one directory below it, with descriptors 3 and 4.
abbrev watching : Str → Str → Watch
watching root dir =
    with_watch dir 4 (kernel 4) (with_watch root 3 (kernel 3) (new_watch root true true))

abbrev absolute : Watch
absolute = watching (codes "/w") (codes "/w/d")

abbrev dotted : Watch
dotted = watching (codes "./w") (codes "./w/d")

abbrev kernel_of : Str → Kernel
kernel_of dir = kernel 9

abbrev written : Event
written = record {
  is_dir = false;
  create = false;
  close_write = true;
  moved_to = false;
  delete = false;
  name = codes "a.txt";
  walked = [];
  calls = record { opened = true; errno = 0; close_failed = false };
  kernel = kernel_of;
}

-- Two files, of which the client's filters let the first one through.
epoll_round-tells_written_example :
    (s' : Watch) × (epoll_round
        ((3, events (written ∷ record written { name = codes "b.log" } ∷ []) ∷ drained ∷ []) ∷ [])
        (record absolute { filters = codes "txt" ∷ [] })
      ≡ done (
        s',
        new_file (record {
          name = codes "a.txt";
          ext = codes "txt";
          path = codes "/w/a.txt";
          flags = is_regular;
        })
            ∷ [],
      ))
    × (s'.set ≡ absolute.set)
    × (s'.map ≡ absolute.map)
unfolding runs
epoll_round-tells_written_example =
    epoll_round-tells_written 3 (codes "/w")
      (written ∷ record written { name = codes "b.log" } ∷ [])
      (record absolute { filters = codes "txt" ∷ [] })
      ((refl, refl, refl), ((refl, refl, refl), tt)) refl

abbrev made : Event
made = record written {
  is_dir = true;
  create = true;
  close_write = false;
  name = codes "e";
  walked = record { fts_info = fts_d; name = codes "e"; path = codes "/w/e" } ∷ [];
}

-- The watcher after the directory is gone.
abbrev without : Str → Watch → Watch
without dir s = record s {
  tree = (Tree.drop dir s.tree).0;
  set = exclude (codes "./w/d") s.set;
  closed = some 4 ∷ [];
}

remove_watch-keeps_absolute_example :
    (member (codes "/w/d") (without (codes "/w/d") absolute).set ≡ true)
    × (add_watch (codes "/w/d") (kernel 5) (without (codes "/w/d") absolute)
        ≡ done (without (codes "/w/d") absolute))
unfolding runs
remove_watch-keeps_absolute_example =
    remove_watch-keeps_absolute (codes "/w/d") (codes "/w/d") (kernel 5) absolute
      (without (codes "/w/d") absolute) refl (omega arith) refl

remove_watch-forgets_example : member (codes "./w/d") (without (codes "./w/d") dotted).set ≡ false
unfolding runs
remove_watch-forgets_example =
    remove_watch-forgets (codes "./w/d") here (codes "w" ∷ []) (codes "d") []
      (Node.node (codes "d") (some (record { path = codes "./w/d"; fd = some 4; wd = some 1 }))
        Children.no_child)
      dotted (without (codes "./w/d") dotted) (refl, (refl, (refl, tt, tt), tt), tt) refl
      (ground arith, (ground arith, (ground arith, tt))) refl refl

add_watch-watches_example :
    (s' : Watch) × (add_watch (codes "/w/e") (kernel 5) absolute ≡ done s')
    × ((p : Str) → member p s'.set ≡ (codes "/w/e" == p || member p absolute.set))
    × ((n : ℕ) → lookup n s'.map ≡ (if 5 == n then some (codes "/w/e") else lookup n absolute.map))
    × ((p : List Str)
        → data_at p s'.tree ≡ (
            if path_beq (tokens (codes "/w/e")) p
            then some (watched_node (codes "/w/e") 5 (kernel 5))
            else data_at p absolute.tree))
unfolding runs
add_watch-watches_example = add_watch-watches (codes "/w/e") 5 (kernel 5) absolute refl refl refl

abbrev emptied : OnFileData
emptied = record { name = codes "./w/d"; ext = []; path = codes "./w/d"; flags = is_directory }
