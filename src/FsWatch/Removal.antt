-- ===== src/FsWatch/Removal.antt =====
-- FsWatch::removeWatch: which watches it forgets.
use mathlib.Core.List.{Memᴰ}
use mathlib.Core.Logic.{∥∥₁_elim}
use ch_cpp_utils.Base.{
  ◌≡◌, ◌≢◌, ap, ◌∙◌, true, false, Option, none, some, Option-cases, inl, inr, List, [], ◌∷◌, ◌++◌,
  map, Str, str_eq, str_beq, str_beq_iff, rfind, substr, arith, All, member, exclude,
  member-exclude,
}
use ch_cpp_utils.DirTree.Tokens.{slash, dot, first_byte, normalize, tokens}
use ch_cpp_utils.DirTree.Tokens.Join.{IsPart, join}
use ch_cpp_utils.DirTree.Node.{Node, node_data}
use ch_cpp_utils.DirTree.Tree
use ch_cpp_utils.DirTree.Tree.{Report, report, drop_node, parent_of}
use ch_cpp_utils.DirTree.Tree.Paths.{find_path}
use ch_cpp_utils.DirTree.Tree.Keys.{IsKeyed}
use ch_cpp_utils.DirTree.Tree.Drop.{calls-drop}
use ch_cpp_utils.DirTree.Tree.Calls.{drop-complete}
use ch_cpp_utils.FsWatch.Outcome.{done, >>=-eq-done}
use ch_cpp_utils.FsWatch.State.{
  TreeNode, Watch, Kernel, drop_cbk, drop_cbks, remove_watch, add_watch,
}

abbrev pub IsDotted : Str → Type 0
IsDotted s = first_byte s ≡ dot

IsDotted-normalize : (k : Str) → IsDotted (normalize k)
unfolding normalize
IsDotted-normalize k = ground arith

IsDotted-parent_of : (s r : Str) → IsDotted s → IsDotted (parent_of s ++ r)
unfolding parent_of substr rfind
IsDotted-parent_of [] r h = absurd (omega arith)
IsDotted-parent_of (c ∷ s) r h = elim (Option-cases (rfind s slash)) [
  | inl e ↦ ground arith
  | inr (i, e) ↦ ground arith
]

-- Every path that a drop reports begins with a dot.
IsDotted-report :
    (k : Str) (calls : List (Report TreeNode))
    → All (λ r. IsDotted r.0) (map (report (normalize k)) calls)
IsDotted-report k [] = tt
IsDotted-report k ((suffix, d) ∷ calls) =
    (IsDotted-parent_of (normalize k) suffix (IsDotted-normalize k), IsDotted-report k calls)

IsDotted-drop : (k : Str) (tree : Node TreeNode) → All (λ r. IsDotted r.0) (Tree.drop k tree).1
IsDotted-drop k tree = rw (calls-drop k tree) (go (find_path (tokens k) tree))
  where
    go :
        (o : Option (Node TreeNode))
        → All
            (λ r. IsDotted r.0)
            (elim o as (λ _. List (Report TreeNode)) [
              | none ↦ []
              | some c ↦ map (report (normalize k)) (drop_node [] c)
            ])
    go none = tt
    go (some c) = IsDotted-report k (drop_node [] c)

drop_cbk-eq-done :
    (r : Report TreeNode) (s s' : Watch)
    → drop_cbk r s ≡ done s'
    → (s'.set ≡ exclude r.0 s.set) × (s'.map ≡ s.map) × (s'.root ≡ s.root)
unfolding drop_cbk
drop_cbk-eq-done (path, none) s s' h = cc
drop_cbk-eq-done (path, some n) s s' h = ground arith

dotted_ne : (p r : Str) → IsDotted r → first_byte p ≢ dot → str_beq r p ≡ false
dotted_ne p r h k = ground (arith, str_beq_iff r p, ap first_byte)

drop_cbks-keeps :
    (p : Str) (calls : List (Report TreeNode)) (s s' : Watch)
    → All (λ r. IsDotted r.0) calls
    → first_byte p ≢ dot
    → drop_cbks calls s ≡ done s'
    → member p s'.set ≡ member p s.set
unfolding drop_cbks
drop_cbks-keeps p [] s s' h k e = ground arith
drop_cbks-keeps p (r ∷ calls) s s' (h, hs) k e =
    let (s₁, e₁, e₂) = >>=-eq-done (drop_cbk r s) (drop_cbks calls) e in
    drop_cbks-keeps p calls s₁ s' hs k e₂
    ∙ ap (member p) (drop_cbk-eq-done r s s₁ e₁).0
    ∙ ground (arith, member-exclude r.0 p s.set, dotted_ne p r.0 h k)

pub drop_cbks-map :
    (calls : List (Report TreeNode)) (s s' : Watch)
    → drop_cbks calls s ≡ done s'
    → (s'.map ≡ s.map) × (s'.root ≡ s.root)
unfolding drop_cbks
drop_cbks-map [] s s' e = ground arith
drop_cbks-map (r ∷ calls) s s' e =
    let (s₁, e₁, e₂) = >>=-eq-done (drop_cbk r s) (drop_cbks calls) e in
    let (m, o) = drop_cbks-map calls s₁ s' e₂ in
    let (_, m₁, o₁) = drop_cbk-eq-done r s s₁ e₁ in (m ∙ m₁, o ∙ o₁)

-- What a removal that returns is made of.
pub remove_watch-eq-done :
    (dir : Str) (s s' : Watch)
    → remove_watch dir s ≡ done s'
    → (s₁ : Watch) × (drop_cbks (Tree.drop dir s.tree).1 s ≡ done s₁)
      × (s' ≡ record s₁ { tree = (Tree.drop dir s.tree).0 })
unfolding remove_watch
remove_watch-eq-done dir s s' e =
    let (s₁, e₁, e₂) =
      >>=-eq-done (drop_cbks (Tree.drop dir s.tree).1 s)
        (λ s₁. done (record s₁ { tree = (Tree.drop dir s.tree).0 })) e in
    (s₁, e₁, ground arith)

-- Removing a directory's watches forgets no path that does not begin with a dot, though the
-- directory may be one: if such a path was watched, adding it again does nothing. So a directory
-- below an absolute root that is deleted and created anew is not watched again.
pub remove_watch-keeps_absolute :
    (dir p : Str) (k : Kernel) (s s' : Watch)
    → remove_watch dir s ≡ done s'
    → first_byte p ≢ dot
    → member p s.set ≡ true
    → (member p s'.set ≡ true) × (add_watch p k s' ≡ done s')
unfolding add_watch
remove_watch-keeps_absolute dir p k s s' e absolute watched =
    let (s₁, e₁, e₂) = remove_watch-eq-done dir s s' e in
    let kept =
      drop_cbks-keeps p (Tree.drop dir s.tree).1 s s₁ (IsDotted-drop dir s.tree) absolute e₁ in
    let still : member p s'.set ≡ true = ap (λ (w : Watch). member p w.set) e₂ ∙ kept ∙ watched in
    (still, ground arith)

drop_cbks-forgets_none :
    (p : Str) (calls : List (Report TreeNode)) (s s' : Watch)
    → member p s.set ≡ false
    → drop_cbks calls s ≡ done s'
    → member p s'.set ≡ false
unfolding drop_cbks
drop_cbks-forgets_none p [] s s' h e = ground arith
drop_cbks-forgets_none p (r ∷ calls) s s' h e =
    let (s₁, e₁, e₂) = >>=-eq-done (drop_cbk r s) (drop_cbks calls) e in
    drop_cbks-forgets_none p calls s₁ s'
      (ap (member p) (drop_cbk-eq-done r s s₁ e₁).0 ∙ ground (arith, member-exclude r.0 p s.set)) e₂

drop_cbks-forgets :
    (p : Str) (d : Option TreeNode) (calls : List (Report TreeNode)) (s s' : Watch)
    → Memᴰ (p, d) calls
    → drop_cbks calls s ≡ done s'
    → member p s'.set ≡ false
unfolding drop_cbks
drop_cbks-forgets p d [] s s' m e = elim m [ ]
drop_cbks-forgets p d (r ∷ calls) s s' (Memᴰ.head here) e =
    let (s₁, e₁, e₂) = >>=-eq-done (drop_cbk r s) (drop_cbks calls) e in
    drop_cbks-forgets_none p calls s₁ s'
      (ap (member p) (drop_cbk-eq-done r s s₁ e₁).0
        ∙ ground (
          arith,
          member-exclude r.0 p s.set,
          str_beq_iff r.0 p,
          ap (λ (x : Report TreeNode). x.0) here,
        ))
      e₂
drop_cbks-forgets p d (r ∷ calls) s s' (Memᴰ.tail later) e =
    let (s₁, e₁, e₂) = >>=-eq-done (drop_cbk r s) (drop_cbks calls) e in
    drop_cbks-forgets p d calls s₁ s' later e₂

-- Removing a directory's watches, where it returns, forgets the normalized path of every node at or
-- below the directory. The tree is well formed, and the directory's normalized spelling joins at
-- least two parts, none empty and none with a slash.
pub remove_watch-forgets :
    (dir p : Str) (ps : List Str) (t : Str) (q : List Str) (m : Node TreeNode) (s s' : Watch)
    → IsKeyed s.tree
    → normalize dir ≡ join (p ∷ ps ++ t ∷ [])
    → All IsPart (p ∷ ps ++ t ∷ [])
    → find_path ((p ∷ ps ++ t ∷ []) ++ q) s.tree ≡ some m
    → remove_watch dir s ≡ done s'
    → member (join ((p ∷ ps ++ t ∷ []) ++ q)) s'.set ≡ false
remove_watch-forgets dir p ps t q m s s' h n parts there e =
    let (s₁, e₁, e₂) = remove_watch-eq-done dir s s' e in
    let path = join ((p ∷ ps ++ t ∷ []) ++ q) in
    ap (λ (w : Watch). member path w.set) e₂
    ∙ ∥∥₁_elim (drop-complete dir p ps t q s.tree m h n parts there) (hlevel)
        (λ called. drop_cbks-forgets path (node_data m) (Tree.drop dir s.tree).1 s s₁ called e₁)
