-- ===== src/ThreadPool.antt =====
-- class ThreadPool of src/thread-pool.cpp with the loop of Thread::run of src/thread.cpp. What a
-- thread does under the pool's mutex is one step, and so is the run of a job.
pub mod Steps
pub mod Shutdown
mod Tests
use ch_cpp_utils.Base.{
  ℕ, zero, suc, Option, none, some, List, [], ◌∷◌, ◌++◌, get_elem?, modify, replicate,
}

-- class ThreadJobBase; a job that is no exit job has a number that stands for its routine
pub data Job : Type 0 where
  routine : ℕ → Job
  exit : Job

-- Where a thread stands in the loop of Thread::run: at mGetJob, in runJob, or behind the loop.
pub data Worker : Type 0 where
  idle stopped : Worker
  busy : ℕ → Worker

-- The members of a pool. `added`, `taken` and `finished` record the jobs that were added, taken
-- off the queue and run to their end, in their order.
pub record ThreadPool : Type 0 where
  pub queue : List Job
  pub workers : List Worker
  pub added : List Job
  pub taken : List Job
  pub finished : List ℕ

-- ThreadPool::ThreadPool and createThreads
abbrev pub new_pool : ℕ → ThreadPool
new_pool count = record {
  queue = [];
  workers = replicate count idle;
  added = [];
  taken = [];
  finished = [];
}

-- ThreadPool::addJob
unfoldable pub add_job : Job → ThreadPool → ThreadPool
add_job job s = record s { queue = s.queue ++ job ∷ []; added = s.added ++ job ∷ [] }

-- The jobs that ThreadPool::~ThreadPool adds.
unfoldable pub add_exits : ℕ → ThreadPool → ThreadPool
add_exits zero s = s
add_exits (suc n) s = add_exits n (add_job exit s)

-- ThreadPool::threadGetNextJob_: the first job and the rest; `none` waits
unfoldable pub get_next_job : List Job → Option (Job × List Job)
get_next_job [] = none
get_next_job (job ∷ queue) = some (job, queue)

-- What the loop of Thread::run does with a job: it leaves on an exit job.
abbrev pub with_job : Job → Worker
with_job (routine n) = busy n
with_job exit = stopped

-- A thread at mGetJob takes a job.
unfoldable pub take_job : ℕ → ThreadPool → Option ThreadPool
take_job w s = elim (get_elem? s.workers w) [
  | some idle ↦ elim (get_next_job s.queue) [
    | none ↦ none
    | some (job, queue) ↦ some (record s {
      queue = queue;
      taken = s.taken ++ job ∷ [];
      workers = modify w (λ _. with_job job) s.workers;
    })
  ]
  | _ ↦ none
]

-- Thread::runJob ends, and the thread is at mGetJob again.
unfoldable pub finish_job : ℕ → ThreadPool → Option ThreadPool
finish_job w s = elim (get_elem? s.workers w) [
  | some (busy n) ↦
      some (record s { finished = s.finished ++ n ∷ []; workers = modify w (λ _. idle) s.workers })
  | _ ↦ none
]
