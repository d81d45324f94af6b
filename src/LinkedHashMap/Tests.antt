-- ===== src/LinkedHashMap/Tests.antt =====
-- A map whose key is inserted twice and erased, and the theorem on it.
use ch_cpp_utils.Base.{
  ℕ, ◌≡◌, refl, false, some, List, [], ◌∷◌, codes, lookup, emplace, erase, str_eq,
}
use ch_cpp_utils.LinkedHashMap.{insert, has, find, erase_key, is_empty, size}
use ch_cpp_utils.LinkedHashMap.Content.{
  Call, inserts, erases, apply, made, value_of, find-eq-value_of,
}

-- What the runs below compute with.
runs : Unit {0}
unfolding lookup emplace erase insert has find erase_key is_empty size apply made value_of
runs = tt

abbrev calls : List (Call ℕ)
calls =
    inserts (codes "b") 4
    ∷ erases (codes "c")
    ∷ inserts (codes "a") 2
    ∷ inserts (codes "a") 1
    ∷ inserts (codes "c") 3
    ∷ []

-- has says false of a key that is there.
made_run :
    (has (codes "a") (made calls) ≡ false)
    × (size (made calls) ≡ 2)
    × (is_empty (made calls) ≡ false)
unfolding runs
made_run = (refl, refl, refl)

find-eq-value_of_example : find (codes "a") (made calls) ≡ some 1
unfolding runs
find-eq-value_of_example = find-eq-value_of (codes "a") calls
