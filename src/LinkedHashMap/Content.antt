-- ===== src/LinkedHashMap/Content.antt =====
-- What a map holds after its calls, as a function of the keys.
use ch_cpp_utils.Base.{
  ◌≡◌, refl, Option, none, some, List, [], ◌∷◌, Str, str_eq, ◌==◌, str_beq_iff, lookup,
  lookup-emplace, lookup-erase, if◌then◌else◌, arith,
}
use ch_cpp_utils.LinkedHashMap.{LinkedHashMap, empty_map, insert, find, erase_key}

-- A call that changes a map.
pub data Call {ℓ} (T : Type ℓ) : Type ℓ where
  inserts : Str → T → Call T
  erases : Str → Call T

module _ {ℓ} {T : Type ℓ} where
  unfoldable pub apply : Call T → LinkedHashMap T → LinkedHashMap T
  apply (inserts key value) m = insert key value m
  apply (erases key) m = erase_key key m

  -- A map after its calls, the newest first.
  unfoldable pub made : List (Call T) → LinkedHashMap T
  made [] = empty_map
  made (c ∷ calls) = apply c (made calls)

  -- The value of a key: the first one that was inserted since the key was last erased.
  unfoldable pub value_of : Str → List (Call T) → Option T
  value_of key [] = none
  value_of key (inserts k v ∷ calls) =
      let old = value_of key calls in
      if k == key then (elim old [ none ↦ some v | some w ↦ some w ]) else old
  value_of key (erases k ∷ calls) = let old = value_of key calls in if k == key then none else old

  -- find answers, for every key and after any calls, the value that was inserted first since the key
  -- was last erased: insert keeps a value that is there. Where there is none, it reads through the
  -- end iterator.
  pub find-eq-value_of :
      (key : Str) (calls : List (Call T)) → find key (made calls) ≡ value_of key calls
  unfolding find made apply insert erase_key value_of lookup
  find-eq-value_of key [] = refl
  find-eq-value_of key (inserts k v ∷ calls) = ground (
    arith,
    str_beq_iff k key,
    find-eq-value_of key calls,
    find-eq-value_of k calls,
    lookup-emplace k key v (made calls).map,
  )
  find-eq-value_of key (erases k ∷ calls) =
      ground
        (arith, str_beq_iff k key, find-eq-value_of key calls, lookup-erase k key (made calls).map)
