-- ===== src/FsWatch/Handlers.antt =====
-- The event handlers of FsWatch, handleActivity, the epoll loop, init and start.
use ch_cpp_utils.Base.{
  ℕ, Bool, true, false, not, ◌&&◌, ◌||◌, none, some, List, [], ◌∷◌, ◌++◌, Str, codes, str_eq,
  nat_eq, ◌==◌, nat_beq, is_nil, length, rfind, substr, if◌then◌else◌, lookup, member, include,
}
use ch_cpp_utils.DirTree.Tree
use ch_cpp_utils.DirTree.Tree.{has_children_of}
use ch_cpp_utils.Fts.{
  OnFileData, FtsOptions, Entry, Calls, is_regular, is_directory, ext_of, fire_file_cbk,
  fire_dir_cbk, walk,
}
use ch_cpp_utils.FsWatch.Outcome.{Outcome, done, exited, fault, ◌>>=◌}
use ch_cpp_utils.FsWatch.State.{
  Watch, Kernel, add_to_tree, remove_from_tree, add_watch, remove_watch,
}

-- A call of a callback of the watcher.
pub data Callback : Type 0 where
  new_file empty_dir : OnFileData → Callback

-- What a handler leaves: the state, and the callbacks in their order.
abbrev pub Handled : Type 0
Handled = Outcome (Watch × List Callback)

abbrev pub new_files : List OnFileData → List Callback
new_files [] = []
new_files (d ∷ ds) = new_file d ∷ new_files ds

abbrev pub empty_dirs : List OnFileData → List Callback
empty_dirs [] = []
empty_dirs (d ∷ ds) = empty_dir d ∷ empty_dirs ds

-- One handler after another.
abbrev pub and_then : Handled → (Watch → Handled) → Handled
and_then m next = do (s, first) ← m; (s', second) ← next s; done (s', first ++ second)

-- struct inotify_event with the bits of its mask that are tested, and what the kernel and fts(3)
-- answer while the event is handled.
pub record Event : Type 0 where
  pub is_dir : Bool
  pub create : Bool
  pub close_write : Bool
  pub moved_to : Bool
  pub delete : Bool
  pub name : Str
  pub walked : List Entry
  pub calls : Calls
  pub kernel : Str → Kernel

-- root.back(), which C++ defines for a root that is not empty
unfoldable pub last_byte : Str → ℕ
last_byte [] = 0
last_byte (c ∷ []) = c
last_byte (c ∷ d ∷ s) = last_byte (d ∷ s)

-- A descriptor that is not in the map is read through the end iterator.
unfoldable pub get_full_path : ℕ → Str → Watch → Outcome Str
get_full_path fd name s = elim (lookup fd s.map) [
  | none ↦ fault
  | some dir ↦
      done (dir ++ ((if not (nat_beq b'/' (last_byte s.root)) then codes "/" else []) ++ name))
]

-- deletedChild.substr(0, deletedChild.find_last_of('/'))
unfoldable pub parent_path : Str → Str
parent_path child = elim (rfind child b'/') [
  | none ↦ substr child 0 (length child)
  | some pos ↦ substr child 0 pos
]

unfoldable pub check_empty_dir : Str → Watch → Outcome (List Callback)
check_empty_dir child s =
    if s.on_empty_dir
    then (elim (has_children_of (parent_path child) s.tree) [
      | none ↦ fault
      | some true ↦ done []
      | some false ↦
          if not (parent_path child == s.root)
          then done (empty_dirs (fire_dir_cbk (parent_path child) [] (parent_path child)))
          else done []
    ])
    else done []

unfoldable pub handle_file_modify : ℕ → Event → Watch → Handled
handle_file_modify fd e s = do
  path ← get_full_path fd e.name s
  let fired = fire_file_cbk e.name (ext_of e.name) path
  let calls =
      if s.on_new_file
      then (if is_nil s.filters
          then new_files fired
          else if member (ext_of e.name) s.filters
          then new_files fired
          else [])
      else []
  done ((if s.on_empty_dir then add_to_tree [] none none s else s), calls)

unfoldable pub handle_file_delete : ℕ → Event → Watch → Handled
handle_file_delete fd e s =
    if s.on_empty_dir
    then (do
      path ← get_full_path fd e.name s
      let s' = remove_from_tree path s
      calls ← check_empty_dir path s'
      done (s', calls))
    else done (s, [])

-- FsWatch::onFile
unfoldable pub on_file : (Str → Kernel) → OnFileData → Watch → Outcome Watch
on_file kernel d s = elim d.flags [
  | is_directory ↦ add_watch d.path (kernel d.path) s
  | is_regular ↦ done (if s.on_empty_dir then add_to_tree d.path none none s else s)
]

unfoldable pub on_files : (Str → Kernel) → List OnFileData → Watch → Outcome Watch
on_files kernel [] s = done s
on_files kernel (d ∷ ds) s = do s' ← on_file kernel d s; on_files kernel ds s'

-- The options that init gives the walker.
abbrev pub walk_options : FtsOptions
walk_options = record {
  ignore_hidden_files = true;
  ignore_hidden_dirs = true;
  ignore_regular_files = false;
  ignore_regular_dirs = false;
  filters = [];
}

unfoldable pub handle_directory_create : ℕ → Event → Watch → Handled
handle_directory_create fd e s = do
  new_dir ← get_full_path fd e.name s
  s' ← add_watch new_dir (e.kernel new_dir) s
  s'' ← on_files e.kernel (walk walk_options e.calls e.walked).1 s'
  done (s'', [])

unfoldable pub handle_directory_delete : ℕ → Event → Watch → Handled
handle_directory_delete fd e s = do
  delete_dir ← get_full_path fd e.name s
  s' ← remove_watch delete_dir s
  calls ← check_empty_dir delete_dir s'
  done (s', calls)

abbrev pub handle_if : Bool → (Watch → Handled) → Watch → Handled
handle_if b handle s = if b then handle s else done (s, [])

-- The body of the inner loop of handleActivity.
unfoldable pub handle_event : ℕ → Event → Watch → Handled
handle_event fd e s =
    and_then (handle_if (e.is_dir && e.create) (handle_directory_create fd e) s) λ s₁.
      and_then
        (handle_if (not e.is_dir && (e.close_write || e.moved_to)) (handle_file_modify fd e) s₁)
        λ s₂.
          and_then (handle_if (not e.is_dir && e.delete) (handle_file_delete fd e) s₂)
            λ s₃. handle_if (e.is_dir && e.delete) (handle_directory_delete fd e) s₃

unfoldable pub handle_events : ℕ → List Event → Watch → Handled
handle_events fd [] s = done (s, [])
handle_events fd (e ∷ es) s = and_then (handle_event fd e s) (handle_events fd es)

-- A read of the descriptor: events, nothing more (a length of at most 0), or an error that is not
-- EAGAIN.
pub data Read : Type 0 where
  events : List Event → Read
  drained failed : Read

-- The loop of handleActivity, over the reads up to the one that ends it.
unfoldable pub handle_activity : ℕ → List Read → Watch → Handled
handle_activity fd [] s = done (s, [])
handle_activity fd (events es ∷ reads) s =
    and_then (handle_events fd es s) (handle_activity fd reads)
handle_activity fd (drained ∷ reads) s = done (s, [])
handle_activity fd (failed ∷ reads) s = exited

-- One round of epollThreadRoutine: the ready descriptors with what is read from each.
unfoldable pub epoll_round : List (ℕ × List Read) → Watch → Handled
epoll_round [] s = done (s, [])
epoll_round ((fd, reads) ∷ ready) s =
    and_then
      (elim (lookup fd s.map) [ none ↦ done (s, []) | some dir ↦ handle_activity fd reads s ])
      (epoll_round ready)

-- What a constructor and the two calls that set callbacks leave.
unfoldable pub new_watch : Str → Bool → Bool → Watch
new_watch root on_new_file on_empty_dir = record {
  root = root;
  map = [];
  set = [];
  filters = [];
  on_new_file = on_new_file;
  on_empty_dir = on_empty_dir;
  tree = Tree.empty;
  closed = [];
}

-- FsWatch::init, after epoll_create1 has given a descriptor
unfoldable pub init : (Str → Kernel) → Calls → List Entry → Watch → Outcome Watch
init kernel calls walked s = do
  s' ← add_watch s.root (kernel s.root) s
  on_files kernel (walk walk_options calls walked).1 s'

-- The filters of FsWatch::start
unfoldable pub start : List Str → Watch → Watch
start [] s = s
start (f ∷ fs) s = start fs (record s { filters = include f s.filters })
