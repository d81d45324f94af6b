-- ===== src/Base/Split/Join.antt =====
-- The loop reads back pieces that were joined, up to the first empty one.
use Prim.Native.Nat.{ℕ, zero, suc, ◌+◌, ◌<◌}
use mathlib.Core.Path.{◌≡◌, refl, sym, ap, ◌∙◌}
use mathlib.Core.Logic.{◌≢◌}
use mathlib.Core.Bool.{false}
use mathlib.Core.List.{List, [], ◌∷◌, ◌++◌}
use native.Mathlib.Omega.{arith}
use ch_cpp_utils.Base.Lists.{length, drop, drop_of_le, drop-add, drop-append, is_nil, All}
use ch_cpp_utils.Base.Text.{Str}
use ch_cpp_utils.Base.Split.{pieces_from, pieces_at, join_by}
use ch_cpp_utils.Base.Split.Laws.{before, next_piece-eq-before}

is_nil_of_ne : (p : Str) → p ≢ [] → is_nil p ≡ false
is_nil_of_ne [] h = absurd (h refl)
is_nil_of_ne (c ∷ p) h = refl

pub drop_past : (p r : Str) (c : ℕ) → drop (length p + 1) (p ++ c ∷ r) ≡ r
drop_past p r c = drop-add (length p) 1 (p ++ c ∷ r) ∙ ap (drop 1) (drop-append p (c ∷ r))

drop_end : (p : Str) → drop (length p + 1) p ≡ []
drop_end p = drop_of_le (length p + 1) p (omega arith)

pub drop_on : (path : Str) (from n : ℕ) → drop (from + n + 1) path ≡ drop (n + 1) (drop from path)
drop_on path from n = ap (λ k. drop k path) (assoc from n) ∙ drop-add from (n + 1) path
  where
    assoc : (a b : ℕ) → a + b + 1 ≡ a + (b + 1)
    assoc a b = omega arith

module _ (sep : ℕ) where
  -- What can stand between two separators.
  abbrev pub IsPiece : Str → Type 0
  IsPiece p = (p ≢ []) × All (λ c. c ≢ sep) p

  before-append : (p r : Str) → All (λ c. c ≢ sep) p → before sep (p ++ sep ∷ r) ≡ p
  unfolding before
  before-append [] r h = ground arith
  before-append (c ∷ p) r (h, hs) = ground (arith, before-append p r hs)

  before_whole : (p : Str) → All (λ c. c ≢ sep) p → before sep p ≡ p
  unfolding before
  before_whole [] h = refl
  before_whole (c ∷ p) (h, hs) = ground (arith, before_whole p hs)

  -- One round of the loop, over what is left of the text.
  pieces_from_part :
      (f : ℕ) (path : Str) (from : ℕ) (p : Str)
      → p ≢ []
      → before sep (drop from path) ≡ p
      → pieces_from sep (suc f) path from ≡ p ∷ pieces_from sep f path (from + length p + 1)
  unfolding pieces_from
  pieces_from_part f path from p h e = rw (next_piece-eq-before sep path from, e, is_nil_of_ne p h)

  before-join_by :
      (p : Str) (ps : List Str) → All (λ c. c ≢ sep) p → before sep (join_by sep (p ∷ ps)) ≡ p
  unfolding join_by
  before-join_by p [] h = before_whole p h
  before-join_by p (q ∷ qs) h = before-append p (join_by sep (q ∷ qs)) h

  drop-join_by :
      (p : Str) (ps : List Str) → drop (length p + 1) (join_by sep (p ∷ ps)) ≡ join_by sep ps
  unfolding join_by
  drop-join_by p [] = drop_end p
  drop-join_by p (q ∷ qs) = drop_past p (join_by sep (q ∷ qs)) sep

  join_by_ne_nil : (p : Str) (ps : List Str) → p ≢ [] → join_by sep (p ∷ ps) ≢ []
  unfolding join_by
  join_by_ne_nil [] ps h = absurd (h refl)
  join_by_ne_nil (c ∷ p) [] h = cc
  join_by_ne_nil (c ∷ p) (q ∷ qs) h = cc

  pieces_from_empty :
      (f : ℕ) (path : Str) (from : ℕ)
      → before sep (drop from path) ≡ []
      → pieces_from sep f path from ≡ []
  unfolding pieces_from
  pieces_from_empty zero path from e = refl
  pieces_from_empty (suc f) path from e = rw (next_piece-eq-before sep path from, e)

  before-cut : (rest : List Str) → before sep (join_by sep ([] ∷ rest)) ≡ []
  before-cut rest = before-join_by [] rest tt

  before-end : before sep (join_by sep []) ≡ []
  unfolding before join_by
  before-end = refl

  -- What follows an empty piece is not read.
  pieces_from-join_by :
      (parts rest : List Str) (f : ℕ) (path : Str) (from : ℕ)
      → All IsPiece parts
      → drop from path ≡ join_by sep (parts ++ [] ∷ rest)
      → length path < f + from
      → pieces_from sep f path from ≡ parts
  pieces_from-join_by [] rest f path from h e q =
      pieces_from_empty f path from (ap (before sep) e ∙ before-cut rest)
  pieces_from-join_by (p ∷ ps) rest zero path from (h, hs) e q =
      absurd (join_by_ne_nil p (ps ++ [] ∷ rest) h.0 (sym e ∙ drop_of_le from path (omega arith)))
  pieces_from-join_by (p ∷ ps) rest (suc f) path from (h, hs) e q =
      pieces_from_part f path from p h.0
        (ap (before sep) e ∙ before-join_by p (ps ++ [] ∷ rest) h.1)
      ∙ ap (λ r. p ∷ r)
          (pieces_from-join_by ps rest f path (from + length p + 1) hs
            (drop_on path from (length p)
              ∙ ap (drop (length p + 1)) e
              ∙ drop-join_by p (ps ++ [] ∷ rest))
            (omega arith))

  pieces_from-join_by_whole :
      (parts : List Str) (f : ℕ) (path : Str) (from : ℕ)
      → All IsPiece parts
      → drop from path ≡ join_by sep parts
      → length path < f + from
      → pieces_from sep f path from ≡ parts
  pieces_from-join_by_whole [] f path from h e q =
      pieces_from_empty f path from (ap (before sep) e ∙ before-end)
  pieces_from-join_by_whole (p ∷ ps) zero path from (h, hs) e q =
      absurd (join_by_ne_nil p ps h.0 (sym e ∙ drop_of_le from path (omega arith)))
  pieces_from-join_by_whole (p ∷ ps) (suc f) path from (h, hs) e q =
      pieces_from_part f path from p h.0 (ap (before sep) e ∙ before-join_by p ps h.1)
      ∙ ap (λ r. p ∷ r)
          (pieces_from-join_by_whole ps f path (from + length p + 1) hs
            (drop_on path from (length p) ∙ ap (drop (length p + 1)) e ∙ drop-join_by p ps)
            (omega arith))

  -- The pieces that were joined are read back.
  pub pieces_at-join_by :
      (parts : List Str) → All IsPiece parts → pieces_at sep (join_by sep parts) 0 ≡ parts
  unfolding pieces_at
  pieces_at-join_by parts h =
      pieces_from-join_by_whole parts (suc (length (join_by sep parts))) (join_by sep parts) 0 h
        refl (omega arith)

  -- And so they are before an empty piece, whatever follows it.
  pub pieces_at-join_by_cut :
      (parts rest : List Str)
      → All IsPiece parts
      → pieces_at sep (join_by sep (parts ++ [] ∷ rest)) 0 ≡ parts
  unfolding pieces_at
  pieces_at-join_by_cut parts rest h =
      let text = join_by sep (parts ++ [] ∷ rest) in
      pieces_from-join_by parts rest (suc (length text)) text 0 h refl (omega arith)
