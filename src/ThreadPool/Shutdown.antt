-- ===== src/ThreadPool/Shutdown.antt =====
-- The end of a pool: its destructor adds an exit job for each thread and waits until all are left.
use ch_cpp_utils.Base.{
  ℕ, suc, zero, ◌+◌, ◌<◌, ◌≤◌, ◌≡◌, ◌⊎◌, refl, ap, sym, ◌∙◌, subst, some, inl, inr, List, [], ◌∷◌,
  ◌++◌, append-nil, map, get_elem?, modify, replicate, length, tail, total, total-append,
  total-modify, arith,
}
use ch_cpp_utils.ThreadPool.{
  Job, routine, exit, Worker, idle, stopped, busy, ThreadPool, get_next_job, with_job, take_job,
  finish_job,
}
use ch_cpp_utils.ThreadPool.Steps.{
  Reachable, exits, is_routine, is_number, stops, runs, Reachable-IsOrderly, take_job-eq-some,
  finish_job-eq-some,
}

-- The jobs of a pool that was given `ns` and then destroyed.
abbrev pub ended : List ℕ → ℕ → List Job
ended ns count = map routine ns ++ replicate count exit

exits-ended : (ns : List ℕ) (count : ℕ) → total exits (ended ns count) ≡ count
exits-ended [] zero = refl
exits-ended [] (suc count) = omega (arith, exits-ended [] count)
exits-ended (n ∷ ns) count = omega (arith, exits-ended ns count)

occurs-ended :
    (n : ℕ) (ns : List ℕ) (count : ℕ)
    → total (is_routine n) (ended ns count) ≡ total (is_number n) ns
occurs-ended n [] zero = refl
occurs-ended n [] (suc count) = omega (arith, occurs-ended n [] count)
occurs-ended n (m ∷ ns) count = ap (λ k. is_number n m + k) (occurs-ended n ns count)

nil_of_append : (xs ys : List Job) → xs ++ ys ≡ [] → ys ≡ []
nil_of_append [] ys e = e
nil_of_append (x ∷ xs) ys e = cc

-- Each exit job stands behind all routines: where no exit job is left, nothing is.
exits_last :
    (taken queue : List Job) (ns : List ℕ) (count : ℕ)
    → 0 < count
    → ended ns count ≡ taken ++ queue
    → total exits queue ≡ 0
    → queue ≡ []
exits_last [] [] ns count k e z = refl
exits_last [] (j ∷ queue) ns count k e z =
    absurd (omega (arith, exits-ended ns count, ap (total exits) e, k, z))
exits_last (j ∷ taken) queue (n ∷ ns) count k e z = exits_last taken queue ns count k (ap tail e) z
exits_last (j ∷ taken) queue [] zero k e z = absurd (omega arith)
exits_last (j ∷ taken) queue [] (suc zero) k e z = nil_of_append taken queue (sym (ap tail e))
exits_last (j ∷ taken) queue [] (suc (suc count)) k e z =
    exits_last taken queue [] (suc count) (omega arith) (ap tail e) z

stops_le : (ws : List Worker) → total stops ws ≤ length ws
stops_le [] = omega arith
stops_le (idle ∷ ws) = omega (arith, stops_le ws)
stops_le (stopped ∷ ws) = omega (arith, stops_le ws)
stops_le (busy n ∷ ws) = omega (arith, stops_le ws)

all_stopped : (n : ℕ) (ws : List Worker) → total stops ws ≡ length ws → total (runs n) ws ≡ 0
all_stopped n [] h = refl
all_stopped n (idle ∷ ws) h = absurd (omega (arith, stops_le ws, h))
all_stopped n (stopped ∷ ws) h = omega (arith, all_stopped n ws (omega (arith, h)))
all_stopped n (busy m ∷ ws) h = absurd (omega (arith, stops_le ws, h))

module _ (count : ℕ) (ns : List ℕ) (s : ThreadPool) where
  -- The exit jobs that are left in the queue are those of the threads that have not left.
  exits_left :
      Reachable count s
      → s.added ≡ ended ns count
      → total stops s.workers + total exits s.queue ≡ count
  exits_left r e =
      let h = Reachable-IsOrderly count s r in
      omega (
        arith,
        total-append exits s.taken s.queue,
        ap (total exits) (sym h.fifo ∙ e),
        exits-ended ns count,
        h.left,
      )

  -- When all threads have left, the queue is empty, and every job was run as often as it was added.
  -- The pool has a thread, and the jobs that were added are routines and then the exit jobs of the
  -- destructor.
  pub shutdown_drains :
      Reachable count s
      → s.added ≡ ended ns count
      → 0 < count
      → total stops s.workers ≡ count
      → (s.queue ≡ []) × ((n : ℕ) → total (is_number n) s.finished ≡ total (is_number n) ns)
  shutdown_drains r e k all =
      let h = Reachable-IsOrderly count s r in
      let empty =
        exits_last s.taken s.queue ns count k (sym e ∙ h.fifo)
          (omega (arith, exits_left r e, all)) in
      let taken_all : s.taken ≡ ended ns count =
        sym (append-nil s.taken) ∙ ap (λ q. s.taken ++ q) (sym empty) ∙ sym h.fifo ∙ e in
      (
        empty,
        λ n. omega (
          arith,
          h.once n,
          ap (total (is_routine n)) taken_all,
          occurs-ended n ns count,
          all_stopped n s.workers (all ∙ sym h.threads),
        ),
      )

-- What is left to do: two steps for a job in the queue, one for a job that is being run.
abbrev pub is_busy : Worker → ℕ
is_busy idle = 0
is_busy stopped = 0
is_busy (busy n) = 1

abbrev pub work : ThreadPool → ℕ
work s = (length s.queue + length s.queue) + total is_busy s.workers

-- A thread takes a job or ends one.
abbrev pub ThreadStep : ThreadPool → ThreadPool → Type 0
ThreadStep s s' = (w : ℕ) × ((take_job w s ≡ some s') ⊎ (finish_job w s ≡ some s'))

is_busy_le : (job : Job) → is_busy (with_job job) ≤ 1
is_busy_le (routine n) = omega arith
is_busy_le exit = omega arith

-- Each step of a thread, which takes a job or ends one, makes the number of jobs in the queue,
-- counted twice, and of jobs that are being run smaller.
pub ThreadStep-less : (s s' : ThreadPool) → ThreadStep s s' → work s' < work s
ThreadStep-less s s' (w, inl e) =
    let (job, queue, at_w, at_q, eq) = take_job-eq-some w s s' e in
    subst (λ (t : ThreadPool). work t < work s) (sym eq)
      (omega (
        arith,
        total-modify is_busy w (λ _. with_job job) s.workers idle at_w,
        is_busy_le job,
        ap (λ (q : List Job). length q) at_q,
      ))
ThreadStep-less s s' (w, inr e) =
    let (n, at_w, eq) = finish_job-eq-some w s s' e in
    subst (λ (t : ThreadPool). work t < work s) (sym eq)
      (omega (arith, total-modify is_busy w (λ _. idle) s.workers (busy n) at_w))

active :
    (ws : List Worker)
    → total stops ws < length ws
    → (w : ℕ) × ((get_elem? ws w ≡ some idle) ⊎ ((n : ℕ) × (get_elem? ws w ≡ some (busy n))))
active [] h = absurd (omega arith)
active (idle ∷ ws) h = (0, inl refl)
active (busy n ∷ ws) h = (0, inr (n, refl))
active (stopped ∷ ws) h = let (w, found) = active ws (omega arith) in (suc w, found)

take_job-some :
    (w : ℕ) (s : ThreadPool) (job : Job) (queue : List Job)
    → get_elem? s.workers w ≡ some idle
    → s.queue ≡ job ∷ queue
    → (s' : ThreadPool) × (take_job w s ≡ some s')
unfolding take_job get_next_job
take_job-some w s job queue at_w at_q = (
  record s {
    queue = queue;
    taken = s.taken ++ job ∷ [];
    workers = modify w (λ _. with_job job) s.workers;
  },
  ground arith,
)

finish_job-some :
    (w n : ℕ) (s : ThreadPool)
    → get_elem? s.workers w ≡ some (busy n)
    → (s' : ThreadPool) × (finish_job w s ≡ some s')
unfolding finish_job
finish_job-some w n s at_w = (
  record s { finished = s.finished ++ n ∷ []; workers = modify w (λ _. idle) s.workers },
  ground arith,
)

queue_cons : (q : List Job) → 0 < total exits q → (job : Job) × (rest : List Job) × (q ≡ job ∷ rest)
queue_cons [] h = absurd (omega arith)
queue_cons (job ∷ rest) h = (job, rest, refl)

-- Until all threads have left, some thread can take a job or end one. The jobs that were added are
-- routines and then the exit jobs of the destructor.
pub shutdown_progress :
    (count : ℕ) (ns : List ℕ) (s : ThreadPool)
    → Reachable count s
    → s.added ≡ ended ns count
    → total stops s.workers < count
    → (s' : ThreadPool) × ThreadStep s s'
shutdown_progress count ns s r e some_left =
    let h = Reachable-IsOrderly count s r in
    let (w, found) = active s.workers (omega (arith, h.threads, some_left)) in
    elim found [
      | inl at_w ↦
          let (job, rest, at_q) =
            queue_cons s.queue (omega (arith, exits_left count ns s r e, some_left)) in
          let (s', taken) = take_job-some w s job rest at_w at_q in (s', (w, inl taken))
      | inr (n, at_w) ↦ let (s', done) = finish_job-some w n s at_w in (s', (w, inr done))
    ]
