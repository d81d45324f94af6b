-- ===== src/FsWatch/Rounds.antt =====
-- The directory tree of the watcher stays well formed through every event and every round of the
-- epoll loop.
use ch_cpp_utils.Base.{
  if_keeps, ℕ, Bool, not, ◌&&◌, ◌||◌, Option, none, some, List, [], ◌∷◌, Str, str_eq, nat_eq,
  lookup,
}
use ch_cpp_utils.Fts.{Entry, Calls, walk}
use ch_cpp_utils.FsWatch.Outcome.{done, Ensures, Ensures-bind, Ensures-any}
use ch_cpp_utils.FsWatch.State.{Watch, Kernel, remove_from_tree, add_watch, remove_watch}
use ch_cpp_utils.FsWatch.Handlers.{
  Handled, Event, get_full_path, check_empty_dir, handle_file_modify, handle_file_delete, on_files,
  walk_options, handle_directory_create, handle_directory_delete, handle_event, handle_events, Read,
  events, drained, failed, handle_activity, epoll_round, new_watch, init,
}
use ch_cpp_utils.FsWatch.Invariant.{
  HasTree, HandledTree, remove_from_tree-HasTree, add_watch-HasTree, remove_watch-HasTree,
  if_tracked-HasTree, on_files-HasTree, and_then-HasTree, handle_if-HasTree,
}

module _ (fd : ℕ) (e : Event) where
  handle_file_modify-HasTree :
      (s : Watch) → HasTree s → Ensures HandledTree (handle_file_modify fd e s)
  unfolding handle_file_modify
  handle_file_modify-HasTree s h =
      Ensures-bind (λ _. Unit {0}) HandledTree (get_full_path fd e.name s) _
        (Ensures-any (get_full_path fd e.name s))
        (λ path _. if_tracked-HasTree s.on_empty_dir [] s h)

  handle_file_delete-HasTree :
      (s : Watch) → HasTree s → Ensures HandledTree (handle_file_delete fd e s)
  unfolding handle_file_delete
  handle_file_delete-HasTree s h =
      if_keeps (Ensures HandledTree) s.on_empty_dir
        (Ensures-bind (λ _. Unit {0}) HandledTree (get_full_path fd e.name s) _
          (Ensures-any (get_full_path fd e.name s))
          (λ path _.
            Ensures-bind (λ _. Unit {0}) HandledTree
              (check_empty_dir path (remove_from_tree path s)) _
              (Ensures-any (check_empty_dir path (remove_from_tree path s)))
              (λ calls _. remove_from_tree-HasTree path s h)))
        h

  handle_directory_create-HasTree :
      (s : Watch) → HasTree s → Ensures HandledTree (handle_directory_create fd e s)
  unfolding handle_directory_create
  handle_directory_create-HasTree s h =
      Ensures-bind (λ _. Unit {0}) HandledTree (get_full_path fd e.name s) _
        (Ensures-any (get_full_path fd e.name s))
        λ dir _.
          Ensures-bind HasTree HandledTree (add_watch dir (e.kernel dir) s) _
            (add_watch-HasTree dir (e.kernel dir) s h)
            λ s₁ h₁.
              Ensures-bind HasTree HandledTree
                (on_files e.kernel (walk walk_options e.calls e.walked).1 s₁) _
                (on_files-HasTree e.kernel (walk walk_options e.calls e.walked).1 s₁ h₁) λ s₂ h₂. h₂

  handle_directory_delete-HasTree :
      (s : Watch) → HasTree s → Ensures HandledTree (handle_directory_delete fd e s)
  unfolding handle_directory_delete
  handle_directory_delete-HasTree s h =
      Ensures-bind (λ _. Unit {0}) HandledTree (get_full_path fd e.name s) _
        (Ensures-any (get_full_path fd e.name s))
        λ dir _.
          Ensures-bind HasTree HandledTree (remove_watch dir s) _ (remove_watch-HasTree dir s h)
            λ s₁ h₁.
              Ensures-bind (λ _. Unit {0}) HandledTree (check_empty_dir dir s₁) _
                (Ensures-any (check_empty_dir dir s₁)) λ calls _. h₁

  handle_event-HasTree : (s : Watch) → HasTree s → Ensures HandledTree (handle_event fd e s)
  unfolding handle_event
  handle_event-HasTree s h =
      and_then-HasTree _ _
        (handle_if-HasTree (e.is_dir && e.create) (handle_directory_create fd e) s h
          handle_directory_create-HasTree)
        λ s₁ h₁.
          and_then-HasTree _ _
            (handle_if-HasTree (not e.is_dir && (e.close_write || e.moved_to))
              (handle_file_modify fd e) s₁ h₁ handle_file_modify-HasTree)
            λ s₂ h₂.
              and_then-HasTree _ _
                (handle_if-HasTree (not e.is_dir && e.delete) (handle_file_delete fd e) s₂ h₂
                  handle_file_delete-HasTree)
                λ s₃ h₃.
                  handle_if-HasTree (e.is_dir && e.delete) (handle_directory_delete fd e) s₃ h₃
                    handle_directory_delete-HasTree

handle_events-HasTree :
    (fd : ℕ) (es : List Event) (s : Watch) → HasTree s → Ensures HandledTree (handle_events fd es s)
unfolding handle_events
handle_events-HasTree fd [] s h = h
handle_events-HasTree fd (e ∷ es) s h =
    and_then-HasTree (handle_event fd e s) (handle_events fd es) (handle_event-HasTree fd e s h)
      (handle_events-HasTree fd es)

handle_activity-HasTree :
    (fd : ℕ) (reads : List Read) (s : Watch)
    → HasTree s
    → Ensures HandledTree (handle_activity fd reads s)
unfolding handle_activity
handle_activity-HasTree fd [] s h = h
handle_activity-HasTree fd (events es ∷ reads) s h =
    and_then-HasTree (handle_events fd es s) (handle_activity fd reads)
      (handle_events-HasTree fd es s h) (handle_activity-HasTree fd reads)
handle_activity-HasTree fd (drained ∷ reads) s h = h
handle_activity-HasTree fd (failed ∷ reads) s h = tt

known-HasTree :
    (fd : ℕ) (reads : List Read) (s : Watch) (o : Option Str)
    → HasTree s
    → Ensures HandledTree
        (elim o as (λ _. Handled) [ none ↦ done (s, []) | some dir ↦ handle_activity fd reads s ])
known-HasTree fd reads s none h = h
known-HasTree fd reads s (some dir) h = handle_activity-HasTree fd reads s h

-- One round of the epoll loop, whatever the descriptors and the events, keeps the watcher's
-- directory tree well formed if it returns.
pub epoll_round-HasTree :
    (ready : List (ℕ × List Read)) (s : Watch)
    → HasTree s
    → Ensures HandledTree (epoll_round ready s)
unfolding epoll_round
epoll_round-HasTree [] s h = h
epoll_round-HasTree ((fd, reads) ∷ ready) s h =
    and_then-HasTree _ (epoll_round ready) (known-HasTree fd reads s (lookup fd s.map) h)
      (epoll_round-HasTree ready)

-- The watcher that init leaves, if it returns, has a well-formed tree.
pub init-HasTree :
    (kernel : Str → Kernel) (calls : Calls) (walked : List Entry) (root : Str)
    (on_new_file on_empty_dir : Bool)
    → Ensures HasTree (init kernel calls walked (new_watch root on_new_file on_empty_dir))
unfolding init new_watch
init-HasTree kernel calls walked root new empty =
    Ensures-bind HasTree HasTree (add_watch root (kernel root) (new_watch root new empty))
      (on_files kernel (walk walk_options calls walked).1)
      (add_watch-HasTree root (kernel root) (new_watch root new empty) tt)
      (on_files-HasTree kernel (walk walk_options calls walked).1)
