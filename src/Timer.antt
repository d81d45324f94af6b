-- ===== src/Timer.antt =====
-- class Timer and class TimerEvent of src/timer.cpp, over a pool of one thread. What they call of
-- libevent is recorded; an event of libevent is the number of the call of evtimer_new that made it.
pub mod Libevent
pub mod Ownership
pub mod Calls
pub mod Reached
mod Tests
use ch_cpp_utils.Base.{ℕ, suc, Option, none, some, List, [], ◌∷◌, ◌++◌, length, get_elem?, modify}
use ch_cpp_utils.ThreadPool.{ThreadPool, new_pool, routine, add_job}

-- struct timeval
pub record TimeVal : Type 0 where
  pub tv_sec : ℕ
  pub tv_usec : ℕ

-- class TimerEvent: its time, its callback, the pointer that the callback is given, and its event
pub record TimerEvent : Type 0 where
  pub tv : TimeVal
  pub on_timer_event : Option ℕ
  pub this_ : ℕ
  pub event : Option ℕ

-- A call of libevent, or the end of an event's time. evtimer_new is given the timer event.
pub data EvCall : Type 0 where
  evtimer_new : (e timer_event : ℕ) → EvCall
  evtimer_add : (e : ℕ) (tv : TimeVal) → EvCall
  event_remove_timer evtimer_del event_free free expires : ℕ → EvCall

-- A timer: its pool, the timer events it made, with `none` for a deleted one, the calls of libevent,
-- the newest first, and the number of those of evtimer_new.
pub record Timer : Type 0 where
  pub pool : ThreadPool
  pub timer_events : List (Option TimerEvent)
  pub calls : List EvCall
  pub made : ℕ

-- Timer::Timer
abbrev pub new_timer : Timer
new_timer = record { pool = new_pool 1; timer_events = []; calls = []; made = 0 }

-- TimerEvent::TimerEvent
abbrev pub new_timer_event : TimeVal → Option ℕ → ℕ → TimerEvent
new_timer_event tv callback this_ = record {
  tv = tv;
  on_timer_event = callback;
  this_ = this_;
  event = none;
}

-- TimerEvent::setEvent
abbrev pub set_event : Option ℕ → TimerEvent → TimerEvent
set_event e te = record te { event = e }

-- A new job of Timer::_timerRoutine, for a timer event
abbrev pub add_dispatch : ℕ → Timer → Timer
add_dispatch i t = record t { pool = add_job (routine i) t.pool }

-- Timer::create_
unfoldable pub create_ : ℕ → TimerEvent → Timer → Timer
create_ i te t =
    let e = t.made in
    add_dispatch i (record t {
      made = suc e;
      timer_events = modify i (λ _. some (set_event (some e) te)) t.timer_events;
      calls = evtimer_add e te.tv ∷ evtimer_new e i ∷ t.calls;
    })

-- Timer::create, which answers the timer event
unfoldable pub create : TimeVal → Option ℕ → ℕ → Timer → Timer × ℕ
create tv callback this_ t =
    let te = new_timer_event tv callback this_ in
    let i = length t.timer_events in
    (create_ i te (record t { timer_events = t.timer_events ++ some te ∷ [] }), i)

-- The timer event that a pointer names and its event; `none` for one that is deleted or has none.
unfoldable pub with_event : ℕ → Timer → Option (TimerEvent × ℕ)
with_event i t = elim (get_elem? t.timer_events i) [
  | some (some te) ↦ elim te.event [ none ↦ none | some e ↦ some (te, e) ]
  | _ ↦ none
]

-- Timer::restart; `none` reads a deleted timer event or one without an event
unfoldable pub restart : ℕ → Timer → Option Timer
restart i t = elim (with_event i t) [
  | none ↦ none
  | some (te, e) ↦ some (
      create_ i (set_event none te) (
        add_dispatch i (record t {
          timer_events = modify i (λ _. some (set_event none te)) t.timer_events;
          calls = free e ∷ evtimer_del e ∷ event_remove_timer e ∷ t.calls;
        })))
]

-- Timer::destroy
unfoldable pub destroy : ℕ → Timer → Option Timer
destroy i t = elim (with_event i t) [
  | none ↦ none
  | some (te, e) ↦ some (record t {
    timer_events = modify i (λ _. none) t.timer_events;
    calls = event_free e ∷ evtimer_del e ∷ t.calls;
  })
]

-- Timer::_onEvTimer: the callback that is run and what it is given, `none` where there is no callback
unfoldable pub on_ev_timer : ℕ → TimerEvent → Option (ℕ × ℕ × ℕ)
on_ev_timer i te = elim te.on_timer_event [
  | none ↦ none
  | some callback ↦ some (callback, i, te.this_)
]
