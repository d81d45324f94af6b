-- ===== src/Events/Tests.antt =====
-- Runs of an event emitter, and its theorem at a concrete input.
use ch_cpp_utils.Base.{
  ◌≡◌, refl, none, some, [], ◌∷◌, codes, lookup, emplace, assign, modify, str_eq,
}
use ch_cpp_utils.Events.{on, bind, register, fire}
use ch_cpp_utils.Events.Firing.{target_of, register_all, fire-eq-registered}

-- What the runs below compute with.
runs : Unit {0}
unfolding on bind register fire lookup emplace assign modify
runs = tt

unknown_event : fire (codes "b") (register (codes "a") 1 2 []) ≡ none
unfolding runs
unknown_event = refl

fire-eq-registered_example :
    fire
      (codes "a")
      (register_all ((codes "a", (1, 2)) ∷ (codes "b", (3, 4)) ∷ (codes "a", (5, 6)) ∷ []) [])
    ≡ some (target_of 1 2 ∷ target_of 5 6 ∷ [])
fire-eq-registered_example =
    fire-eq-registered (codes "a")
      ((codes "a", (1, 2)) ∷ (codes "b", (3, 4)) ∷ (codes "a", (5, 6)) ∷ [])
