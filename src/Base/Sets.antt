-- ===== src/Base/Sets.antt =====
-- std::set and std::unordered_set as lists of their members.
use mathlib.Core.Path.{◌≡◌, refl}
use mathlib.Core.Bool.{Bool, false, ◌||◌, not, ◌&&◌}
use mathlib.Core.List.{List, [], ◌∷◌}
use native.Mathlib.Omega.{arith}
use ch_cpp_utils.Base.Tests.{KeyEq, ◌==◌, if◌then◌else◌}

module _ {ℓ} {K : Type ℓ} ⦃keys : KeyEq K⦄ where
  -- s.count(k) > 0, s.find(k) != s.end()
  unfoldable pub member : K → List K → Bool
  member k [] = false
  member k (j ∷ s) = j == k || member k s

  -- s.insert(k)
  unfoldable pub include : K → List K → List K
  unfolding member
  include k s = if member k s then s else k ∷ s

  -- s.erase(k)
  unfoldable pub exclude : K → List K → List K
  exclude k [] = []
  exclude k (j ∷ s) = let rest = exclude k s in if j == k then rest else j ∷ rest

  pub member-include : (k j : K) (s : List K) → member j (include k s) ≡ (k == j || member j s)
  unfolding include member
  member-include k j s = ground (arith, keys.eqb_iff k j)

  pub member-exclude :
      (k j : K) (s : List K) → member j (exclude k s) ≡ (member j s && not (k == j))
  unfolding exclude member
  member-exclude k j [] = refl
  member-exclude k j (i ∷ s) =
      ground (arith, keys.eqb_iff k j, keys.eqb_iff i k, keys.eqb_iff i j, member-exclude k j s)
