-- ===== src/LinkedHashMap.antt =====
-- class LinkedHashMap of src/ch-cpp-utils/linked-hash-map.hpp. Its list is made and never used.
pub mod Content
mod Tests
use ch_cpp_utils.Base.{
  ℕ, zero, Bool, true, false, Option, none, some, List, [], Str, str_eq, Assoc, lookup, emplace,
  erase, length, is_nil,
}

pub record LinkedHashMap {ℓ} (T : Type ℓ) : Type ℓ where
  pub list : List T
  pub map : Assoc Str T

module _ {ℓ} {T : Type ℓ} where
  -- LinkedHashMap::LinkedHashMap
  abbrev pub empty_map : LinkedHashMap T
  empty_map = record { list = []; map = [] }

  -- LinkedHashMap::insert
  unfoldable pub insert : Str → T → LinkedHashMap T → LinkedHashMap T
  insert key value m = record m { map = emplace key value m.map }

  -- LinkedHashMap::has
  unfoldable pub has : Str → LinkedHashMap T → Bool
  has key m = false

  -- LinkedHashMap::find; `none` reads through the end iterator
  unfoldable pub find : Str → LinkedHashMap T → Option T
  find key m = lookup key m.map

  -- LinkedHashMap::erase
  unfoldable pub erase_key : Str → LinkedHashMap T → LinkedHashMap T
  erase_key key m = record m { map = erase key m.map }

  -- LinkedHashMap::empty
  unfoldable pub is_empty : LinkedHashMap T → Bool
  is_empty m = is_nil m.map

  -- LinkedHashMap::size
  unfoldable pub size : LinkedHashMap T → ℕ
  size m = length m.map
