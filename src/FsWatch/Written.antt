-- ===== src/FsWatch/Written.antt =====
-- A round of the epoll loop in which files are written.
use ch_cpp_utils.Base.{
  ℕ, ◌≡◌, refl, ap, ◌∙◌, Bool, true, false, ◌&&◌, ◌||◌, none, some, List, [], ◌∷◌, ◌++◌, append-nil,
  append_assoc, Str, str_eq, nat_eq, if◌then◌else◌, arith, All, lookup, is_nil, member,
}
use ch_cpp_utils.Fts.{is_regular}
use ch_cpp_utils.Fts.Names.{dotless_end, ext_of-eq}
use ch_cpp_utils.FsWatch.Outcome.{done}
use ch_cpp_utils.FsWatch.State.{Watch, add_to_tree}
use ch_cpp_utils.FsWatch.Handlers.{
  Callback, Handled, and_then, new_file, Event, get_full_path, handle_file_modify, handle_event,
  handle_events, events, drained, handle_activity, epoll_round,
}
use ch_cpp_utils.FsWatch.Events.{path_in}

-- An event of a file that was written or moved in.
abbrev pub IsWritten : Event → Type 0
IsWritten e = (e.is_dir ≡ false) × ((e.close_write || e.moved_to) ≡ true) × (e.delete ≡ false)

-- The call for a file in a directory of a watcher, if there is one.
abbrev pub told_of : Str → Event → Watch → List Callback
told_of dir e s =
    if s.on_new_file && (is_nil s.filters || member (dotless_end e.name) s.filters)
    then new_file (record {
      name = e.name;
      ext = dotless_end e.name;
      path = path_in dir e.name s;
      flags = is_regular;
    })
      ∷ []
    else []

abbrev pub files_told : Str → List Event → Watch → List Callback
files_told dir [] s = []
files_told dir (e ∷ es) s = told_of dir e s ++ files_told dir es s

-- What handlers of files leave as it was.
record Same (s s' : Watch) : Type 0 where
  root : s'.root ≡ s.root
  map : s'.map ≡ s.map
  set : s'.set ≡ s.set
  filters : s'.filters ≡ s.filters
  on_new_file : s'.on_new_file ≡ s.on_new_file

Same-trans : (s s₁ s₂ : Watch) → Same s s₁ → Same s₁ s₂ → Same s s₂
Same-trans s s₁ s₂ a b = record {
  root = b.root ∙ a.root;
  map = b.map ∙ a.map;
  set = b.set ∙ a.set;
  filters = b.filters ∙ a.filters;
  on_new_file = b.on_new_file ∙ a.on_new_file;
}

-- Two handlers that return, one after the other.
and_then-eq-done :
    (m : Handled) (next : Watch → Handled) (s₁ s₂ : Watch) (x y : List Callback)
    → m ≡ done (s₁, x)
    → next s₁ ≡ done (s₂, y)
    → and_then m next ≡ done (s₂, x ++ y)
and_then-eq-done m next s₁ s₂ x y e f = rw (e, f) refl

files_told-Same :
    (dir : Str) (es : List Event) (s s' : Watch)
    → Same s s'
    → files_told dir es s' ≡ files_told dir es s
files_told-Same dir [] s s' h = refl
files_told-Same dir (e ∷ es) s s' h =
    rw (files_told-Same dir es s s' h, h.root, h.filters, h.on_new_file) refl

-- The watcher after one such event.
abbrev after_file : Bool → Watch → Watch
after_file b s = if b then add_to_tree [] none none s else s

after_file-Same : (b : Bool) (s : Watch) → Same s (after_file b s)
unfolding add_to_tree
after_file-Same true s = record {
  root = refl;
  map = refl;
  set = refl;
  filters = refl;
  on_new_file = refl;
}
after_file-Same false s = record {
  root = refl;
  map = refl;
  set = refl;
  filters = refl;
  on_new_file = refl;
}

module _ (fd : ℕ) (dir : Str) where
  handle_file_modify-tells :
      (e : Event) (s : Watch)
      → lookup fd s.map ≡ some dir
      → handle_file_modify fd e s ≡ done (after_file s.on_empty_dir s, files_told dir (e ∷ []) s)
  unfolding handle_file_modify get_full_path
  handle_file_modify-tells e s known = ground (arith, known, ext_of-eq e.name)

  handle_event-written :
      (e : Event) (s : Watch)
      → IsWritten e
      → lookup fd s.map ≡ some dir
      → handle_event fd e s ≡ done (after_file s.on_empty_dir s, files_told dir (e ∷ []) s)
  unfolding handle_event
  handle_event-written e s (d, w, k) known =
      simp (d, w, k, handle_file_modify-tells e s known, append-nil (files_told dir (e ∷ []) s))

  handle_events-written :
      (es : List Event) (s : Watch)
      → All IsWritten es
      → lookup fd s.map ≡ some dir
      → (s' : Watch) × (handle_events fd es s ≡ done (s', files_told dir es s)) × Same s s'
  unfolding handle_events
  handle_events-written [] s h known =
      (s, refl, record { root = refl; map = refl; set = refl; filters = refl; on_new_file = refl })
  handle_events-written (e ∷ es) s (h, hs) known =
      let s₁ = after_file s.on_empty_dir s in
      let same = after_file-Same s.on_empty_dir s in
      let (s', e', same') = handle_events-written es s₁ hs (ap (lookup fd) same.map ∙ known) in
      (
        s',
        and_then-eq-done (handle_event fd e s) (handle_events fd es) s₁ s'
              (files_told dir (e ∷ []) s) (files_told dir es s) (handle_event-written e s h known)
              (e' ∙ ap (λ calls. done (s', calls)) (files_told-Same dir es s s₁ same))
            ∙ ap (λ calls. done (s', calls))
                (append_assoc (told_of dir e s) [] (files_told dir es s)),
        Same-trans s s₁ s' same same',
      )

  -- A round of the epoll loop in which a watched directory tells of files that were written or moved in
  -- calls the client back, if it asked for files, for each of these files in their order whose
  -- extension is in the filters, or for each of them if there are no filters. A call has the file's
  -- name, its extension, which is the longest end with no dot, and the directory's path with the name
  -- behind it. The watcher then watches the directories that it watched before.
  pub epoll_round-tells_written :
      (es : List Event) (s : Watch)
      → All IsWritten es
      → lookup fd s.map ≡ some dir
      → (s' : Watch) × (epoll_round ((fd, events es ∷ drained ∷ []) ∷ []) s
          ≡ done (s', files_told dir es s))
        × (s'.set ≡ s.set)
        × (s'.map ≡ s.map)
  unfolding epoll_round handle_activity
  epoll_round-tells_written es s h known =
      let (s', e, same) = handle_events-written es s h known in
      (
        s',
        rw (known, e)
            (ap (λ calls. done (s', calls))
              (append-nil (files_told dir es s ++ []) ∙ append-nil (files_told dir es s))),
        same.set,
        same.map,
      )
