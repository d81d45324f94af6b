-- ===== src/Base/Split/Laws.antt =====
-- The loop ends within its fuel: reading on from a position.
use Prim.Native.Nat.{ℕ, zero, suc, ◌+◌, ◌-◌, ◌<◌}
use mathlib.Core.Path.{◌≡◌, refl, ap}
use mathlib.Core.Logic.{inl, inr}
use mathlib.Core.Option.{none, some}
use mathlib.Core.List.{List, [], ◌∷◌}
use native.Mathlib.Omega.{arith}
use ch_cpp_utils.Base.Tests.{nat_beq, if◌then◌else◌, Option-cases}
use ch_cpp_utils.Base.Lists.{length, length-drop, take, take_all, drop, drop_of_le, is_nil}
use ch_cpp_utils.Base.Text.{Str, find, substr, index_of}
use ch_cpp_utils.Base.Split.{next_piece, pieces_from, pieces_at}

add_sub : (n i : ℕ) → n + i - n ≡ i
add_sub n i = omega arith

module _ (sep : ℕ) where
  -- What stands before the first separator.
  unfoldable pub before : Str → Str
  before [] = []
  before (c ∷ s) = if nat_beq c sep then [] else c ∷ before s

  before_of_none : (s : Str) → index_of sep s ≡ none → before s ≡ s
  unfolding before
  before_of_none [] h = refl
  before_of_none (c ∷ s) h = ground (arith, before_of_none s)

  before_of_some : (s : Str) (i : ℕ) → index_of sep s ≡ some i → before s ≡ take i s
  unfolding before
  before_of_some [] i h = cc
  before_of_some (c ∷ s) zero h = ground arith
  before_of_some (c ∷ s) (suc i) h = ground (arith, before_of_some s i)

  pub next_piece-eq-before :
      (path : Str) (from : ℕ) → next_piece sep path from ≡ before (drop from path)
  unfolding next_piece find substr
  next_piece-eq-before path from = elim (Option-cases (index_of sep (drop from path))) [
    | inl e ↦ ground (
      arith,
      before_of_none (drop from path) e,
      length-drop from path,
      take_all (length path) (drop from path),
      drop_of_le from path,
    )
    | inr (i, e) ↦ ground (
      arith,
      before_of_some (drop from path) i e,
      drop_of_le from path,
      ap (λ (n : ℕ). take n (drop from path)) (add_sub from i),
    )
  ]

  -- More fuel than bytes left makes no difference.
  pieces_from_fuel :
      (f g : ℕ) (path : Str) (from : ℕ)
      → length path < f + from
      → length path < g + from
      → pieces_from sep f path from ≡ pieces_from sep g path from
  unfolding pieces_from next_piece
  pieces_from_fuel zero zero path from p q = refl
  pieces_from_fuel zero (suc g) path from p q = ground arith
  pieces_from_fuel (suc f) zero path from p q = ground arith
  pieces_from_fuel (suc f) (suc g) path from p q =
      unfold pieces_from in
      ap
        (λ (r : List Str).
          if is_nil (next_piece sep path from) then [] else next_piece sep path from ∷ r)
        (pieces_from_fuel f g path (from + length (next_piece sep path from) + 1) (omega arith)
          (omega arith))

  -- Cutting a text from a position is one piece and then, unless it is empty, cutting on behind
  -- it: the loop never stops for want of fuel.
  pub pieces_at_step :
      (path : Str) (from : ℕ)
      → pieces_at sep path from ≡ (
          let piece = next_piece sep path from in
          if is_nil piece then [] else piece ∷ pieces_at sep path (from + length piece + 1))
  unfolding pieces_at pieces_from
  pieces_at_step path from =
      ap
        (λ (r : List Str).
          if is_nil (next_piece sep path from) then [] else next_piece sep path from ∷ r)
        (pieces_from_fuel (length path) (suc (length path)) path
          (from + length (next_piece sep path from) + 1) (omega arith) (omega arith))
