-- ===== src/Base/Split.antt =====
-- The loop that cuts a text into pieces at a separator: getNextToken of src/dirtree.cpp and
-- getNextQuery of src/http/server/http-thread.cpp are the same code but for the separator.
pub mod Laws
pub mod Reference
pub mod Join
use Prim.Native.Nat.{ℕ, zero, suc, ◌+◌, ◌-◌}
use mathlib.Core.Bool.{Bool}
use mathlib.Core.Option.{none, some}
use mathlib.Core.List.{List, [], ◌∷◌, ◌++◌}
use ch_cpp_utils.Base.Tests.{leb, if◌then◌else◌}
use ch_cpp_utils.Base.Lists.{length, is_nil}
use ch_cpp_utils.Base.Text.{Str, find, substr}

module _ (sep : ℕ) where
  -- The piece at a position. The length npos - from reaches past the end, where `substr` cuts it.
  unfoldable pub next_piece : Str → ℕ → Str
  unfolding find substr
  next_piece path from = if leb (length path) from then [] else elim (find path sep from) [
    | none ↦ substr path from (length path)
    | some pos ↦ substr path from (pos - from)
  ]

  -- The pieces that the loop reads one after the other, up to the first empty one:
  -- `from += token.size() + 1`. The fuel bounds the rounds.
  unfoldable pub pieces_from : ℕ → Str → ℕ → List Str
  pieces_from zero path from = []
  pieces_from (suc fuel) path from =
      let piece = next_piece path from in
      let rest = pieces_from fuel path (from + length piece + 1) in
      if is_nil piece then [] else piece ∷ rest

  -- One round for each byte, and one for the empty piece.
  unfoldable pub pieces_at : Str → ℕ → List Str
  pieces_at path from = pieces_from (suc (length path)) path from

  -- Pieces with the separator between them.
  unfoldable pub join_by : List Str → Str
  join_by [] = []
  join_by (p ∷ []) = p
  join_by (p ∷ q ∷ qs) = p ++ sep ∷ join_by (q ∷ qs)
