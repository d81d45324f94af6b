-- ===== src/ThreadPool/Tests.antt =====
-- Runs of a pool of two threads, and the theorems on pools at concrete inputs.
use ch_cpp_utils.Base.{ℕ, ◌≡◌, refl, [], ◌∷◌, arith, modify, total}
use ch_cpp_utils.ThreadPool.{
  routine, exit, idle, stopped, busy, ThreadPool, new_pool, add_job, add_exits, get_next_job,
  take_job, finish_job,
}
use ch_cpp_utils.ThreadPool.Steps.{
  Reachable, starts, steps, adds, takes, finishes, is_number, IsOrderly, Reachable-IsOrderly,
}
use ch_cpp_utils.ThreadPool.Shutdown.{ThreadStep, shutdown_drains, shutdown_progress}

-- What the runs below compute with.
runs : Unit {0}
unfolding add_job add_exits get_next_job take_job finish_job modify
runs = tt

-- A pool of one thread that was given a job and destroyed.
abbrev given : ThreadPool
given = record {
  queue = routine 7 ∷ exit ∷ [];
  workers = idle ∷ [];
  added = routine 7 ∷ exit ∷ [];
  taken = [];
  finished = [];
}

abbrev running : ThreadPool
running = record given { queue = exit ∷ []; workers = busy 7 ∷ []; taken = routine 7 ∷ [] }

abbrev ran : ThreadPool
ran = record running { workers = idle ∷ []; finished = 7 ∷ [] }

abbrev over : ThreadPool
over = record ran { queue = []; workers = stopped ∷ []; taken = routine 7 ∷ exit ∷ [] }

given_run : add_exits 1 (add_job (routine 7) (new_pool 1)) ≡ given
unfolding runs
given_run = refl

given-Reachable : Reachable 1 given
unfolding runs
given-Reachable =
    steps (add_job (routine 7) (new_pool 1)) given
      (steps (new_pool 1) (add_job (routine 7) (new_pool 1)) starts (adds (routine 7) (new_pool 1)))
      (adds exit (add_job (routine 7) (new_pool 1)))

over-Reachable : Reachable 1 over
unfolding runs
over-Reachable =
    steps ran over
      (steps running ran (steps given running given-Reachable (takes 0 given running refl))
        (finishes 0 running ran refl))
      (takes 0 ran over refl)

Reachable-IsOrderly_example : IsOrderly 1 over
Reachable-IsOrderly_example = Reachable-IsOrderly 1 over over-Reachable

shutdown_drains_example :
    (over.queue ≡ []) × ((n : ℕ) → total (is_number n) (7 ∷ []) ≡ total (is_number n) (7 ∷ []))
shutdown_drains_example = shutdown_drains 1 (7 ∷ []) over over-Reachable refl (omega arith) refl

shutdown_progress_example : (s' : ThreadPool) × ThreadStep given s'
shutdown_progress_example = shutdown_progress 1 (7 ∷ []) given given-Reachable refl (omega arith)
