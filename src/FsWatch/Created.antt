-- ===== src/FsWatch/Created.antt =====
-- A round of the epoll loop in which a directory is created.
use ch_cpp_utils.Base.{ℕ, ◌≡◌, Str, str_eq, nat_eq}
use ch_cpp_utils.Fts.{OnFileData, is_directory}
use ch_cpp_utils.FsWatch.State.{Watch}
use ch_cpp_utils.FsWatch.Handlers.{Event}
use ch_cpp_utils.FsWatch.Events.{path_in}

-- What the walk of a directory with nothing in it reports.
abbrev pub IsAlone : Str → OnFileData → Type 0
IsAlone dir d = (d.flags ≡ is_directory) × (d.path ≡ dir)

module _ (fd : ℕ) (parent : Str) (new_fd : ℕ) (e : Event) (s : Watch) where
  -- The directory that an event names.
  abbrev pub new_dir : Str
  new_dir = path_in parent e.name s
