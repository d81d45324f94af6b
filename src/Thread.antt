-- ===== src/Thread.antt =====
-- class Semaphore of src/semaphore.cpp, and the start and the end of a Thread of src/thread.cpp, which
-- its owner and the thread agree on over a semaphore.
pub mod Life
mod Tests
use ch_cpp_utils.Base.{ℕ, zero, suc, Bool, true, false, Option, none, some}

pub record Semaphore : Type 0 where
  pub count : ℕ

-- unsigned long count_ = 0
abbrev pub locked : Semaphore
locked = record { count = 0 }

-- Semaphore::notify. The count is far from the largest unsigned long.
abbrev pub notify : Semaphore → Semaphore
notify s = record { count = suc s.count }

-- Semaphore::wait; `none` waits
unfoldable pub wait : Semaphore → Option Semaphore
wait s = elim s.count [ zero ↦ none | suc n ↦ some (record { count = n }) ]

-- Semaphore::try_wait
unfoldable pub try_wait : Semaphore → Bool × Semaphore
try_wait s = elim s.count [ zero ↦ (false, s) | suc n ↦ (true, record { count = n }) ]

-- Where the owner stands: in start, at the wait or behind it, and in the destructor likewise.
pub data Owner : Type 0 where
  starting started destroying destroyed : Owner

-- Where the thread stands in Thread::run: before the first notify, in the loop of jobs, behind it
-- with its callback to run and its event base to free, and behind the second notify.
pub data Runner : Type 0 where
  initializing looping leaving exited : Runner

pub record Thread : Type 0 where
  pub semaphore : Semaphore
  pub owner : Owner
  pub runner : Runner

-- Behind the first line of Thread::start.
abbrev pub created : Thread
created = record { semaphore = locked; owner = starting; runner = initializing }

-- Thread::run up to the first notify, from there to the exit job, and to the second notify.
unfoldable pub run : Thread → Option Thread
run t = elim t.runner [
  | initializing ↦ some (record t { semaphore = notify t.semaphore; runner = looping })
  | looping ↦ some (record t { runner = leaving })
  | leaving ↦ some (record t { semaphore = notify t.semaphore; runner = exited })
  | exited ↦ none
]

-- The owner behind a wait.
abbrev pub after_wait : Owner → Thread → Option Thread
after_wait next t = elim (wait t.semaphore) [
  | none ↦ none
  | some s ↦ some (record t { semaphore = s; owner = next })
]

-- The wait of Thread::start, a call of the destructor, and its wait.
unfoldable pub own : Thread → Option Thread
own t = elim t.owner [
  | starting ↦ after_wait started t
  | started ↦ some (record t { owner = destroying })
  | destroying ↦ after_wait destroyed t
  | destroyed ↦ none
]
