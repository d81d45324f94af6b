-- ===== src/Base/Split/Reference.antt =====
-- The loop against a cut of the whole text at every separator.
use Prim.Native.Nat.{ℕ, zero, suc, ◌+◌, ◌<◌}
use mathlib.Core.Path.{◌≡◌, refl, sym, ap, ◌∙◌}
use mathlib.Core.Logic.{inl, inr}
use mathlib.Core.List.{List, [], ◌∷◌}
use native.Mathlib.Omega.{arith}
use ch_cpp_utils.Base.Tests.{nat_beq, if◌then◌else◌, Bool-cases}
use ch_cpp_utils.Base.Lists.{length, drop, drop_of_le, is_nil}
use ch_cpp_utils.Base.Text.{Str}
use ch_cpp_utils.Base.Split.{pieces_from, pieces_at}
use ch_cpp_utils.Base.Split.Laws.{before, next_piece-eq-before}
use ch_cpp_utils.Base.Split.Join.{drop_on}

-- The parts up to the first empty one.
abbrev pub up_to_empty : List Str → List Str
up_to_empty [] = []
up_to_empty ([] ∷ ps) = []
up_to_empty ((c ∷ p) ∷ ps) = (c ∷ p) ∷ up_to_empty ps

-- A byte in front of the first part.
abbrev pub prefix_first : ℕ → List Str → List Str
prefix_first c [] = (c ∷ []) ∷ []
prefix_first c (p ∷ ps) = (c ∷ p) ∷ ps

module _ (sep : ℕ) where
  -- All parts of a text, the empty ones included.
  unfoldable pub parts_of : Str → List Str
  parts_of [] = [] ∷ []
  parts_of (c ∷ s) = if nat_beq c sep then [] ∷ parts_of s else prefix_first c (parts_of s)

  -- The first part of a text, and what is read behind it.
  parts_of-first :
      (s : Str)
      → (ps : List Str) × (parts_of s ≡ before sep s ∷ ps)
        × (up_to_empty ps ≡ up_to_empty (parts_of (drop (length (before sep s) + 1) s)))
  unfolding parts_of before
  parts_of-first [] = ([], refl, refl)
  parts_of-first (c ∷ s) = elim (Bool-cases (nat_beq c sep)) [
    | inl e ↦ (parts_of s, ground (arith, e), ground (arith, e))
    | inr e ↦
        let (ps, first, rest) = parts_of-first s in
        (ps, ground (arith, e, first), ground (arith, e, rest))
  ]

  up_to_empty-first :
      (p : Str) (ps : List Str)
      → up_to_empty (p ∷ ps) ≡ (if is_nil p then [] else p ∷ up_to_empty ps)
  up_to_empty-first [] ps = refl
  up_to_empty-first (c ∷ p) ps = refl

  -- One round of a reading of the reference.
  up_to_empty-parts_of :
      (s : Str)
      → up_to_empty (parts_of s) ≡ (
          if is_nil (before sep s)
          then []
          else before sep s ∷ up_to_empty (parts_of (drop (length (before sep s) + 1) s)))
  up_to_empty-parts_of s =
      let (ps, first, rest) = parts_of-first s in
      ap up_to_empty first
      ∙ up_to_empty-first (before sep s) ps
      ∙ ap (λ r. if is_nil (before sep s) then [] else before sep s ∷ r) rest

  pieces_from-eq-parts :
      (f : ℕ) (path : Str) (from : ℕ)
      → length path < f + from
      → pieces_from sep f path from ≡ up_to_empty (parts_of (drop from path))
  unfolding pieces_from parts_of
  pieces_from-eq-parts zero path from q = ground (arith, drop_of_le from path (omega arith))
  pieces_from-eq-parts (suc f) path from q =
      let p = before sep (drop from path) in
      rw (next_piece-eq-before sep path from) (
        ap (λ r. if is_nil p then [] else p ∷ r)
          (pieces_from-eq-parts f path (from + length p + 1) (omega arith)
            ∙ ap (λ s. up_to_empty (parts_of s)) (drop_on path from (length p)))
        ∙ sym (up_to_empty-parts_of (drop from path)))

  -- The loop that cuts a text from a position reads the parts between the separators of what is left
  -- of the text, up to the first empty part, and its fuel is enough for any text.
  pub pieces_at-eq-parts :
      (path : Str) (from : ℕ) → pieces_at sep path from ≡ up_to_empty (parts_of (drop from path))
  unfolding pieces_at
  pieces_at-eq-parts path from = pieces_from-eq-parts (suc (length path)) path from (omega arith)
