-- ===== src/Events.antt =====
-- The event emitter of src/events.cpp. A Target pointer is the name of its event and its position.
pub mod Firing
mod Tests
use ch_cpp_utils.Base.{
  ℕ, Option, none, some, List, [], ◌∷◌, ◌++◌, map, Str, str_eq, length, modify, Assoc, lookup,
  emplace, assign,
}

-- class Target; `none` is a null pointer
pub record Target : Type 0 where
  pub target : Option ℕ
  pub this_ : Option ℕ

-- Target::Target
abbrev pub new_target : Target
new_target = record { target = none; this_ = none }

-- Target::add
abbrev pub add : ℕ → Target → Target
add target t = record t { target = some target }

-- Target::bind
abbrev pub set_this : ℕ → Target → Target
set_this this t = record t { this_ = some this }

-- class Events: the targets of each name
abbrev pub Events : Type 0
Events = Assoc Str (List Target)

-- Events::on with Event::addTarget, and the pointer that they return
unfoldable pub on : Str → ℕ → Events → Events × (Str × ℕ)
on name target events = elim (lookup name events) [
  | none ↦ (emplace name (add target new_target ∷ []) events, (name, 0))
  | some targets ↦
      (assign name (targets ++ add target new_target ∷ []) events, (name, length targets))
]

-- Target::bind through a pointer
unfoldable pub bind : Str × ℕ → ℕ → Events → Events
bind (name, i) this events = elim (lookup name events) [
  | none ↦ events
  | some targets ↦ assign name (modify i (set_this this) targets) events
]

-- events.on(name, target)->bind(this)
unfoldable pub register : Str → ℕ → ℕ → Events → Events
register name target this events =
    let (events', pointer) = on name target events in bind pointer this events'

-- Events::fire: the calls of the targets in their order. For a name that is not there, the end
-- iterator is read, which C++ does not define.
unfoldable pub fire : Str → Events → Option (List Target)
fire name events = lookup name events
