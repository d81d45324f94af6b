-- ===== src/Timer/Reached.antt =====
-- The timers that calls make, in any order.
use ch_cpp_utils.Base.{ℕ, ◌≡◌, refl, true, Option, none, some, get_elem?, arith}
use ch_cpp_utils.Timer.{
  TimeVal, TimerEvent, Timer, new_timer, set_event, create_, create, restart, destroy,
}
use ch_cpp_utils.Timer.Libevent.{status}
use ch_cpp_utils.Timer.Ownership.{IsTimer}
use ch_cpp_utils.Timer.Calls.{
  create-IsTimer, restart-IsTimer, destroy-IsTimer, expire, expire-IsTimer, with_event-some,
  stopped, destroyed,
}

-- A client creates, restarts or destroys a timer event, or the time of a pending event ends.
pub data Step : Timer → Timer → Type 0 where
  creates :
      (tv : TimeVal) (callback : Option ℕ) (this_ : ℕ) (t : Timer)
      → Step t (create tv callback this_ t).0
  restarts : (i : ℕ) (t t' : Timer) → restart i t ≡ some t' → Step t t'
  destroys : (i : ℕ) (t t' : Timer) → destroy i t ≡ some t' → Step t t'
  times_out : (e i : ℕ) (t : Timer) → status e t.calls ≡ some (i, true) → Step t (expire e t)

pub data Reachable : Timer → Type 0 where
  starts : Reachable new_timer
  steps : (t t' : Timer) → Reachable t → Step t t' → Reachable t'

new_timer-IsTimer : IsTimer new_timer
unfolding status
new_timer-IsTimer = record {
  obeys = tt;
  fresh = λ _ _. refl;
  owned = λ _ _ h. absurd (cc);
  unleaked = λ _ _ _ h. absurd (cc);
}

Step-IsTimer : (t t' : Timer) → Step t t' → IsTimer t → IsTimer t'
Step-IsTimer t t' (creates tv callback this_ _) w = create-IsTimer tv callback this_ t w
Step-IsTimer t t' (restarts i _ _ e) w = restart-IsTimer i t t' e w
Step-IsTimer t t' (destroys i _ _ e) w = destroy-IsTimer i t t' e w
Step-IsTimer t t' (times_out e i _ p) w = expire-IsTimer e i t p w

-- Whatever the order of the calls and of the times that end, no event of libevent is used before it is made or after it is released, none is
-- released while it is pending, and the events that are not released are those of the timer events
-- that are not deleted, one for each.
pub Reachable-IsTimer : (t : Timer) → Reachable t → IsTimer t
Reachable-IsTimer t starts = new_timer-IsTimer
Reachable-IsTimer t (steps b _ r s) = Step-IsTimer b t s (Reachable-IsTimer b r)

-- A timer event that is not deleted can be restarted and destroyed: neither reads a null event, in
-- whatever order the calls before it were made.
pub restart-destroy_total :
    (i : ℕ) (te : TimerEvent) (t : Timer)
    → Reachable t
    → get_elem? t.timer_events i ≡ some (some te)
    → ((t' : Timer) × (restart i t ≡ some t')) × ((t' : Timer) × (destroy i t ≡ some t'))
unfolding restart destroy
restart-destroy_total i te t r at_i =
    let (e, there) = with_event-some i te t (Reachable-IsTimer t r) at_i in
    (
      (create_ i (set_event none te) (stopped i te e t), ground arith),
      (destroyed i e t, ground arith),
    )
