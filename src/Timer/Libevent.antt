-- ===== src/Timer/Libevent.antt =====
-- What libevent asks of its callers: an event is used only between evtimer_new and its release, and
-- released only when it is not pending.
use ch_cpp_utils.Base.{
  ℕ, Bool, true, false, Option, none, some, List, [], ◌∷◌, nat_beq, nat_beq_iff, if◌then◌else◌, ◌≡◌,
  arith,
}
use ch_cpp_utils.Timer.{
  TimeVal, EvCall, evtimer_new, evtimer_add, event_remove_timer, evtimer_del, event_free, free,
  expires,
}

-- The timer event that evtimer_new was given, and whether the event is pending; `none` for an event
-- that is not made yet or is released.
abbrev pub Status : Type 0
Status = Option (ℕ × Bool)

abbrev pub pending_is : Bool → Status → Status
pending_is b none = none
pending_is b (some (i, _)) = some (i, b)

-- An event behind the calls, the newest call first.
unfoldable pub status : ℕ → List EvCall → Status
status e [] = none
status e (evtimer_new d i ∷ h) = let s = status e h in if nat_beq d e then some (i, false) else s
status e (evtimer_add d tv ∷ h) = let s = status e h in if nat_beq d e then pending_is true s else s
status e (event_remove_timer d ∷ h) =
    let s = status e h in if nat_beq d e then pending_is false s else s
status e (evtimer_del d ∷ h) = let s = status e h in if nat_beq d e then pending_is false s else s
status e (expires d ∷ h) = let s = status e h in if nat_beq d e then pending_is false s else s
status e (event_free d ∷ h) = let s = status e h in if nat_beq d e then none else s
status e (free d ∷ h) = let s = status e h in if nat_beq d e then none else s

abbrev pub IsMade : Status → Type 0
IsMade s = (i : ℕ) × (b : Bool) × (s ≡ some (i, b))

-- What a call asks of the calls before it.
abbrev pub IsAllowed : EvCall → List EvCall → Type 0
IsAllowed (evtimer_new e i) h = status e h ≡ none
IsAllowed (evtimer_add e tv) h = IsMade (status e h)
IsAllowed (event_remove_timer e) h = IsMade (status e h)
IsAllowed (evtimer_del e) h = IsMade (status e h)
IsAllowed (expires e) h = (i : ℕ) × (status e h ≡ some (i, true))
IsAllowed (event_free e) h = (i : ℕ) × (status e h ≡ some (i, false))
IsAllowed (free e) h = (i : ℕ) × (status e h ≡ some (i, false))

abbrev pub Obeys : List EvCall → Type 0
Obeys [] = Unit
Obeys (c ∷ h) = IsAllowed c h × Obeys h

-- The sequences of calls that a timer makes.
pub status-created :
    (e d i : ℕ) (tv : TimeVal) (h : List EvCall)
    → status e (evtimer_add d tv ∷ evtimer_new d i ∷ h)
      ≡ (if nat_beq d e then some (i, true) else status e h)
unfolding status
status-created e d i tv h = ground arith

pub status-destroyed :
    (e d : ℕ) (h : List EvCall)
    → status e (event_free d ∷ evtimer_del d ∷ h) ≡ (if nat_beq d e then none else status e h)
unfolding status
status-destroyed e d h = ground arith

pub status-stopped :
    (e d : ℕ) (h : List EvCall)
    → status e (free d ∷ evtimer_del d ∷ event_remove_timer d ∷ h)
      ≡ (if nat_beq d e then none else status e h)
unfolding status
status-stopped e d h = ground arith

pub created-Obeys :
    (d i : ℕ) (tv : TimeVal) (h : List EvCall)
    → status d h ≡ none
    → Obeys h
    → Obeys (evtimer_add d tv ∷ evtimer_new d i ∷ h)
unfolding status
created-Obeys d i tv h n o = ((i, false, ground (arith, nat_beq_iff d d)), (n, o))

pub destroyed-Obeys :
    (d i : ℕ) (b : Bool) (h : List EvCall)
    → status d h ≡ some (i, b)
    → Obeys h
    → Obeys (event_free d ∷ evtimer_del d ∷ h)
unfolding status
destroyed-Obeys d i b h s o = ((i, ground (arith, nat_beq_iff d d)), ((i, b, s), o))

pub stopped-Obeys :
    (d i : ℕ) (b : Bool) (h : List EvCall)
    → status d h ≡ some (i, b)
    → Obeys h
    → Obeys (free d ∷ evtimer_del d ∷ event_remove_timer d ∷ h)
unfolding status
stopped-Obeys d i b h s o = (
  (i, ground (arith, nat_beq_iff d d)),
  ((i, false, ground (arith, nat_beq_iff d d)), ((i, b, s), o)),
)
