-- ===== src/FsWatch/Adding.antt =====
-- FsWatch::addWatch: what a new watch leaves, and what becomes of a descriptor that is used again.
use ch_cpp_utils.Base.{
  ℕ, ◌≡◌, ap, ◌∙◌, false, ◌||◌, none, some, List, Str, str_eq, nat_eq, nat_beq_iff, ◌==◌,
  if◌then◌else◌, arith, member, include, member-include, lookup, emplace, lookup-emplace,
}
use ch_cpp_utils.DirTree.Tokens.{tokens}
use ch_cpp_utils.DirTree.Tree
use ch_cpp_utils.DirTree.Tree.Paths.{path_beq, data_at}
use ch_cpp_utils.DirTree.Tree.Insert.{insert-refines}
use ch_cpp_utils.FsWatch.Outcome.{done}
use ch_cpp_utils.FsWatch.State.{TreeNode, Watch, Kernel, add_to_tree, add_watch, remove_watch}
use ch_cpp_utils.FsWatch.Handlers.{get_full_path, last_byte}
use ch_cpp_utils.FsWatch.Removal.{remove_watch-eq-done, drop_cbks-map}

-- What a watch of `dir` leaves in the tree.
abbrev pub watched_node : Str → ℕ → Kernel → TreeNode
watched_node dir fd k = record { path = dir; fd = some fd; wd = k.watch_fd }

-- The state after a new watch.
abbrev pub with_watch : Str → ℕ → Kernel → Watch → Watch
with_watch dir fd k s =
    add_to_tree dir (some fd) k.watch_fd
      (record s { map = emplace fd dir s.map; set = include dir s.set })

pub add_watch_new :
    (dir : Str) (fd : ℕ) (k : Kernel) (s : Watch)
    → member dir s.set ≡ false
    → k.inotify_fd ≡ some fd
    → add_watch dir k s ≡ done (with_watch dir fd k s)
unfolding add_watch
add_watch_new dir fd k s new gives = ground arith

pub data_at-with_watch :
    (dir : Str) (fd : ℕ) (k : Kernel) (s : Watch) (p : List Str)
    → data_at p (with_watch dir fd k s).tree
      ≡ (if path_beq (tokens dir) p then some (watched_node dir fd k) else data_at p s.tree)
unfolding add_to_tree
data_at-with_watch dir fd k s p =
    ground (arith, (insert-refines dir (some (watched_node dir fd k)) s.tree p).0)

-- Watching a directory that is not watched, with a descriptor that the map does not hold, marks the
-- directory and no other as watched, maps the descriptor to it, and puts the descriptors at its
-- tokens in the tree while every other path of the tree keeps its data.
pub add_watch-watches :
    (dir : Str) (fd : ℕ) (k : Kernel) (s : Watch)
    → member dir s.set ≡ false
    → k.inotify_fd ≡ some fd
    → lookup fd s.map ≡ none
    → (s' : Watch) × (add_watch dir k s ≡ done s')
      × ((p : Str) → member p s'.set ≡ (dir == p || member p s.set))
      × ((n : ℕ) → lookup n s'.map ≡ (if fd == n then some dir else lookup n s.map))
      × ((p : List Str)
          → data_at p s'.tree
            ≡ (if path_beq (tokens dir) p then some (watched_node dir fd k) else data_at p s.tree))
unfolding add_to_tree
add_watch-watches dir fd k s new gives fresh = (
  with_watch dir fd k s,
  add_watch_new dir fd k s new gives,
  λ p. member-include dir p s.set,
  λ n. ground (arith, lookup-emplace fd n dir s.map, nat_beq_iff fd n),
  data_at-with_watch dir fd k s,
)

-- Removing the watches of a directory leaves its descriptor in the map. If the kernel gives that
-- descriptor out again for a new directory, the map keeps the old directory, and so the paths of
-- the events that are read from it are those of the old directory.
pub reused_descriptor_keeps_old_dir :
    (old new dropped : Str) (fd : ℕ) (k : Kernel) (s s₁ : Watch) (name : Str)
    → lookup fd s.map ≡ some old
    → remove_watch dropped s ≡ done s₁
    → member new s₁.set ≡ false
    → k.inotify_fd ≡ some fd
    → (s₂ : Watch) × (add_watch new k s₁ ≡ done s₂)
      × (lookup fd s₂.map ≡ some old)
      × (get_full_path fd name s₂ ≡ get_full_path fd name s)
unfolding get_full_path add_to_tree
reused_descriptor_keeps_old_dir old new dropped fd k s s₁ name mapped removed unwatched gives =
    let (s', e₁, e₂) = remove_watch-eq-done dropped s s₁ removed in
    let (m, r) = drop_cbks-map (Tree.drop dropped s.tree).1 s s' e₁ in
    let same_map : s₁.map ≡ s.map = ap (λ (w : Watch). w.map) e₂ ∙ m in
    let same_root : s₁.root ≡ s.root = ap (λ (w : Watch). w.root) e₂ ∙ r in
    let still : lookup fd s₁.map ≡ some old = ap (lookup fd) same_map ∙ mapped in
    let kept : lookup fd (emplace fd new s₁.map) ≡ some old =
      ground (arith, lookup-emplace fd fd new s₁.map, nat_beq_iff fd fd) in
    (
      with_watch new fd k s₁,
      add_watch_new new fd k s₁ unwatched gives,
      kept,
      ground (arith, ap last_byte same_root),
    )
