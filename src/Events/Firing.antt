-- ===== src/Events/Firing.antt =====
-- What firing an event calls.
use ch_cpp_utils.Base.{
  ℕ, ◌≡◌, refl, ap, sym, ◌∙◌, Option, none, some, List, [], ◌∷◌, ◌++◌, Str, str_eq, str_beq_iff,
  str_beq_refl, length, modify, lookup, lookup-emplace, lookup-assign, if◌then◌else◌, ◌==◌, arith,
  Option-cases, inl, inr, append_assoc, append-nil, Bool-cases,
}
use ch_cpp_utils.Events.{Target, new_target, add, set_this, Events, on, bind, register, fire}

modify_last :
    (f : Target → Target) (ts : List Target) (t : Target)
    → modify (length ts) f (ts ++ t ∷ []) ≡ ts ++ f t ∷ []
unfolding modify
modify_last f [] t = refl
modify_last f (u ∷ ts) t = ap (λ r. u ∷ r) (modify_last f ts t)

abbrev pub target_of : ℕ → ℕ → Target
target_of target this = record { target = some target; this_ = some this }

-- The targets that are there, none for a name that is not.
abbrev pub targets_of : Option (List Target) → List Target
targets_of none = []
targets_of (some ts) = ts

lookup-on :
    (name other : Str) (target : ℕ) (events : Events)
    → lookup other (on name target events).0 ≡ (
        if name == other
        then some (targets_of (lookup name events) ++ add target new_target ∷ [])
        else lookup other events)
unfolding on
lookup-on name other target events = elim (Option-cases (lookup name events)) [
  | inl e ↦ ground (arith, lookup-emplace name other (add target new_target ∷ []) events)
  | inr (ts, e) ↦ ground (arith, lookup-assign name other (ts ++ add target new_target ∷ []) events)
]

pointer-on :
    (name : Str) (target : ℕ) (events : Events)
    → (on name target events).1 ≡ (name, length (targets_of (lookup name events)))
unfolding on
pointer-on name target events = ground arith

lookup-bind :
    (name other : Str) (i this : ℕ) (ts : List Target) (events : Events)
    → lookup name events ≡ some ts
    → lookup other (bind (name, i) this events)
      ≡ (if name == other then some (modify i (set_this this) ts) else lookup other events)
unfolding bind
lookup-bind name other i this ts events e =
    ground (arith, lookup-assign name other (modify i (set_this this) ts) events)

lookup-register :
    (name other : Str) (target this : ℕ) (events : Events)
    → lookup other (register name target this events) ≡ (
        if name == other
        then some (targets_of (lookup name events) ++ target_of target this ∷ [])
        else lookup other events)
unfolding register
lookup-register name other target this events =
    let ts = targets_of (lookup name events) in
    let there : lookup name (on name target events).0 ≡ some (ts ++ add target new_target ∷ []) =
      lookup-on name name target events
      ∙ ap (λ b. if b then some (ts ++ add target new_target ∷ []) else lookup name events)
          (str_beq_refl name) in
    ap (λ (p : Str × ℕ). lookup other (bind p this (on name target events).0))
      (pointer-on name target events)
    ∙ lookup-bind name other (length ts) this (ts ++ add target new_target ∷ [])
        (on name target events).0 there
    ∙ ap (λ l. if name == other then some l else lookup other (on name target events).0)
        (modify_last (set_this this) ts (add target new_target))
    ∙ ground (arith, lookup-on name other target events)

-- A call of on with a bind of its target: the name, the target and what it is bound to.
abbrev pub Registration : Type 0
Registration = Str × (ℕ × ℕ)

abbrev pub register_all : List Registration → Events → Events
register_all [] events = events
register_all ((name, (target, this)) ∷ rest) events =
    register_all rest (register name target this events)

-- The targets that were registered under a name, in their order.
abbrev pub registered : Str → List Registration → List Target
registered name [] = []
registered name ((n, (target, this)) ∷ rest) =
    if n == name then target_of target this ∷ registered name rest else registered name rest

abbrev pub or_none : List Target → Option (List Target)
or_none [] = none
or_none (t ∷ ts) = some (t ∷ ts)

abbrev joined : Option (List Target) → List Target → Option (List Target)
joined none ts = or_none ts
joined (some us) ts = some (us ++ ts)

joined_nil : (o : Option (List Target)) → joined o [] ≡ o
joined_nil none = refl
joined_nil (some us) = ap some (append-nil us)

joined_one :
    (o : Option (List Target)) (t : Target) (ts : List Target)
    → joined (some (targets_of o ++ t ∷ [])) ts ≡ joined o (t ∷ ts)
joined_one none t ts = refl
joined_one (some us) t ts = ap some (append_assoc us (t ∷ []) ts)

lookup-register_all :
    (name : Str) (regs : List Registration) (events : Events)
    → lookup name (register_all regs events) ≡ joined (lookup name events) (registered name regs)
lookup-register_all name [] events = sym (joined_nil (lookup name events))
lookup-register_all name ((n, (target, this)) ∷ rest) events = elim (Bool-cases (n == name)) [
  | inl same ↦
      lookup-register_all name rest (register n target this events)
      ∙ ap (λ o. joined o (registered name rest)) (lookup-register n name target this events)
      ∙ rw same (
          ap
            (λ k.
              joined (some (targets_of (lookup k events) ++ target_of target this ∷ []))
                (registered name rest))
            ((str_beq_iff n name).0 same)
          ∙ joined_one (lookup name events) (target_of target this) (registered name rest))
  | inr other ↦
      lookup-register_all name rest (register n target this events)
      ∙ ap (λ o. joined o (registered name rest)) (lookup-register n name target this events)
      ∙ rw other refl
]

-- Firing an event calls the targets that were registered under its name, each bound as its own
-- registration says, in the order of the registrations; for a name with none, it reads through the
-- end iterator.
pub fire-eq-registered :
    (name : Str) (regs : List Registration)
    → fire name (register_all regs []) ≡ or_none (registered name regs)
unfolding fire lookup
fire-eq-registered name regs = lookup-register_all name regs []
