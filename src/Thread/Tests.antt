-- ===== src/Thread/Tests.antt =====
-- Runs of a thread and its owner, and the theorems on them at a concrete run.
use ch_cpp_utils.Base.{◌≡◌, refl, false, none, some}
use ch_cpp_utils.Thread.{
  Thread, locked, notify, wait, try_wait, starting, started, looping, created, run, own,
}
use ch_cpp_utils.Thread.Life.{
  Reachable, starts, steps, runs, owns, HasReached, Reachable-HasReached,
}

semaphore_runs :
    (wait locked ≡ none)
    × (wait (notify locked) ≡ some locked)
    × (try_wait locked ≡ (false, locked))
unfolding wait try_wait
semaphore_runs = (refl, refl, refl)

-- The thread is in its loop, and start has returned.
abbrev working : Thread
working = record { semaphore = locked; owner = started; runner = looping }

abbrev told : Thread
told = record { semaphore = notify locked; owner = starting; runner = looping }

working-Reachable : Reachable working
unfolding run own wait
working-Reachable =
    steps told working (steps created told starts (runs created told refl)) (owns told working refl)

Reachable-HasReached_example : HasReached started looping
Reachable-HasReached_example = Reachable-HasReached working working-Reachable
