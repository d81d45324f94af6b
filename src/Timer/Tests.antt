-- ===== src/Timer/Tests.antt =====
-- A timer that is created, fires and is restarted, and the theorems on timers at this run.
use ch_cpp_utils.Base.{◌≡◌, refl, some, [], ◌∷◌, modify}
use ch_cpp_utils.ThreadPool.{add_job, new_pool, routine}
use ch_cpp_utils.Timer.{
  TimeVal, TimerEvent, Timer, new_timer, create_, create, with_event, restart, destroy, on_ev_timer,
  evtimer_new, evtimer_add, event_remove_timer, evtimer_del, free, expires,
}
use ch_cpp_utils.Timer.Libevent.{status}
use ch_cpp_utils.Timer.Ownership.{IsTimer}
use ch_cpp_utils.Timer.Calls.{expire}
use ch_cpp_utils.Timer.Reached.{
  Reachable, starts, steps, creates, restarts, times_out, Reachable-IsTimer,
}

-- What the runs below compute with.
runs : Unit {0}
unfolding add_job create_ create with_event restart destroy on_ev_timer status modify
runs = tt

abbrev second : TimeVal
second = record { tv_sec = 1; tv_usec = 0 }

abbrev created : Timer
created = (create second (some 4) 9 new_timer).0

abbrev timer_event : TimerEvent
timer_event = record { tv = second; on_timer_event = some 4; this_ = 9; event = some 0 }

abbrev restarted : Timer
restarted = record {
  pool = record (new_pool 1) {
    queue = routine 0 ∷ routine 0 ∷ routine 0 ∷ [];
    added = routine 0 ∷ routine 0 ∷ routine 0 ∷ [];
  };
  timer_events = some (record timer_event { event = some 1 }) ∷ [];
  calls =
      evtimer_add 1 second
      ∷ evtimer_new 1 0
      ∷ free 0
      ∷ evtimer_del 0
      ∷ event_remove_timer 0
      ∷ expires 0
      ∷ evtimer_add 0 second
      ∷ evtimer_new 0 0
      ∷ [];
  made = 2;
}

restarted_run : restart 0 (expire 0 created) ≡ some restarted
unfolding runs
restarted_run = refl

on_ev_timer_run : on_ev_timer 0 timer_event ≡ some (4, 0, 9)
unfolding runs
on_ev_timer_run = refl

created-Reachable : Reachable created
created-Reachable = steps new_timer created starts (creates second (some 4) 9 new_timer)

restarted-Reachable : Reachable restarted
unfolding runs
restarted-Reachable =
    steps (expire 0 created) restarted
      (steps created (expire 0 created) created-Reachable (times_out 0 0 created refl))
      (restarts 0 (expire 0 created) restarted refl)

Reachable-IsTimer_example : IsTimer restarted
Reachable-IsTimer_example = Reachable-IsTimer restarted restarted-Reachable
