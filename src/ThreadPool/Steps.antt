-- ===== src/ThreadPool/Steps.antt =====
-- The steps of a pool and its threads, in any order, and what holds of every state they reach.
use ch_cpp_utils.Base.{
  ℕ, suc, zero, ◌+◌, ◌≡◌, refl, ap, sym, ◌∙◌, Option, none, some, List, [], ◌∷◌, ◌++◌, append_assoc,
  get_elem?, modify, length-modify, replicate, length, total, total-append, total-modify, nat_beq,
  if◌then◌else◌, arith, subst,
}
use ch_cpp_utils.ThreadPool.{
  Job, routine, exit, Worker, idle, stopped, busy, ThreadPool, new_pool, add_job, get_next_job,
  with_job, take_job, finish_job,
}

-- A client adds a job, a thread takes one, or a thread ends one.
pub data Step : ThreadPool → ThreadPool → Type 0 where
  adds : (job : Job) (s : ThreadPool) → Step s (add_job job s)
  takes : (w : ℕ) (s s' : ThreadPool) → take_job w s ≡ some s' → Step s s'
  finishes : (w : ℕ) (s s' : ThreadPool) → finish_job w s ≡ some s' → Step s s'

pub data Reachable (count : ℕ) : ThreadPool → Type 0 where
  starts : Reachable count (new_pool count)
  steps : (s s' : ThreadPool) → Reachable count s → Step s s' → Reachable count s'

abbrev pub exits : Job → ℕ
exits (routine n) = 0
exits exit = 1

-- One for the job with this number.
abbrev pub is_routine : ℕ → Job → ℕ
is_routine n (routine m) = if nat_beq m n then 1 else 0
is_routine n exit = 0

abbrev pub is_number : ℕ → ℕ → ℕ
is_number n m = if nat_beq m n then 1 else 0

abbrev pub stops : Worker → ℕ
stops idle = 0
stops stopped = 1
stops (busy n) = 0

abbrev pub runs : ℕ → Worker → ℕ
runs n idle = 0
runs n stopped = 0
runs n (busy m) = if nat_beq m n then 1 else 0

-- The jobs are taken in the order in which they were added; as many threads have left their loop
-- as exit jobs were taken; and each job that was taken was run or is being run, once.
pub record IsOrderly (count : ℕ) (s : ThreadPool) : Type 0 where
  pub fifo : s.added ≡ s.taken ++ s.queue
  pub left : total exits s.taken ≡ total stops s.workers
  pub once :
      (n : ℕ)
      → total (is_routine n) s.taken ≡ total (is_number n) s.finished + total (runs n) s.workers
  pub threads : length s.workers ≡ count

-- What a step that takes a job is made of.
pub take_job-eq-some :
    (w : ℕ) (s s' : ThreadPool)
    → take_job w s ≡ some s'
    → (job : Job) × (queue : List Job) × (get_elem? s.workers w ≡ some idle)
      × (s.queue ≡ job ∷ queue)
      × (s' ≡ record s {
        queue = queue;
        taken = s.taken ++ job ∷ [];
        workers = modify w (λ _. with_job job) s.workers;
      })
unfolding take_job get_next_job
take_job-eq-some w s s' e = go (get_elem? s.workers w) refl s.queue refl
  where
    go :
        (o : Option Worker)
        → get_elem? s.workers w ≡ o
        → (q : List Job) → s.queue ≡ q
        → (job : Job) × (queue : List Job) × (get_elem? s.workers w ≡ some idle)
          × (s.queue ≡ job ∷ queue)
          × (s' ≡ record s {
            queue = queue;
            taken = s.taken ++ job ∷ [];
            workers = modify w (λ _. with_job job) s.workers;
          })
    go none at_w q at_q = absurd (ground arith)
    go (some stopped) at_w q at_q = absurd (ground arith)
    go (some (busy n)) at_w q at_q = absurd (ground arith)
    go (some idle) at_w [] at_q = absurd (ground arith)
    go (some idle) at_w (job ∷ queue) at_q = (job, queue, at_w, at_q, ground arith)

pub finish_job-eq-some :
    (w : ℕ) (s s' : ThreadPool)
    → finish_job w s ≡ some s'
    → (n : ℕ) × (get_elem? s.workers w ≡ some (busy n))
      × (s'
          ≡ record s { finished = s.finished ++ n ∷ []; workers = modify w (λ _. idle) s.workers })
unfolding finish_job
finish_job-eq-some w s s' e = go (get_elem? s.workers w) refl
  where
    go :
        (o : Option Worker)
        → get_elem? s.workers w ≡ o
        → (n : ℕ) × (get_elem? s.workers w ≡ some (busy n))
          × (s' ≡ record s {
            finished = s.finished ++ n ∷ [];
            workers = modify w (λ _. idle) s.workers;
          })
    go none at_w = absurd (ground arith)
    go (some stopped) at_w = absurd (ground arith)
    go (some idle) at_w = absurd (ground arith)
    go (some (busy n)) at_w = (n, at_w, ground arith)

exits-eq-stops : (job : Job) → exits job ≡ stops (with_job job)
exits-eq-stops (routine n) = refl
exits-eq-stops exit = refl

is_routine-eq-runs : (n : ℕ) (job : Job) → is_routine n job ≡ runs n (with_job job)
is_routine-eq-runs n (routine m) = refl
is_routine-eq-runs n exit = refl

total_last {ℓ} :
    {A : Type ℓ} (m : A → ℕ) (xs : List A) (x : A) → total m (xs ++ x ∷ []) ≡ total m xs + m x
total_last m xs x = omega (arith, total-append m xs (x ∷ []))

module _ (count : ℕ) where
  added-IsOrderly :
      (job : Job) (s : ThreadPool) → IsOrderly count s → IsOrderly count (add_job job s)
  unfolding add_job
  added-IsOrderly job s h = record {
    fifo = ap (λ a. a ++ job ∷ []) h.fifo ∙ append_assoc s.taken s.queue (job ∷ []);
    left = h.left;
    once = h.once;
    threads = h.threads;
  }

  taken-IsOrderly :
      (w : ℕ) (s s' : ThreadPool) → take_job w s ≡ some s' → IsOrderly count s → IsOrderly count s'
  taken-IsOrderly w s s' e h =
      let (job, queue, at_w, at_q, eq) = take_job-eq-some w s s' e in
      subst (IsOrderly count) (sym eq) (record {
        fifo = h.fifo ∙ ap (λ q. s.taken ++ q) at_q ∙ sym (append_assoc s.taken (job ∷ []) queue);
        left = omega (
          arith,
          total_last exits s.taken job,
          total-modify stops w (λ _. with_job job) s.workers idle at_w,
          exits-eq-stops job,
          h.left,
        );
        once = λ n. omega (
          arith,
          total_last (is_routine n) s.taken job,
          total-modify (runs n) w (λ _. with_job job) s.workers idle at_w,
          is_routine-eq-runs n job,
          h.once n,
        );
        threads = length-modify w (λ _. with_job job) s.workers ∙ h.threads;
      })

  finished-IsOrderly :
      (w : ℕ) (s s' : ThreadPool)
      → finish_job w s ≡ some s'
      → IsOrderly count s
      → IsOrderly count s'
  finished-IsOrderly w s s' e h =
      let (m, at_w, eq) = finish_job-eq-some w s s' e in
      subst (IsOrderly count) (sym eq) (record {
        fifo = h.fifo;
        left = omega (arith, total-modify stops w (λ _. idle) s.workers (busy m) at_w, h.left);
        once = λ n. omega (
          arith,
          total_last (is_number n) s.finished m,
          total-modify (runs n) w (λ _. idle) s.workers (busy m) at_w,
          h.once n,
        );
        threads = length-modify w (λ _. idle) s.workers ∙ h.threads;
      })

  idle_threads :
      (k : ℕ)
      → (total stops (replicate k idle) ≡ 0)
        × ((n : ℕ) → total (runs n) (replicate k idle) ≡ 0)
        × (length (replicate k idle) ≡ k)
  idle_threads zero = (refl, λ n. refl, refl)
  idle_threads (suc k) =
      let (a, b, c) = idle_threads k in (omega (arith, a), λ n. omega (arith, b n), ap suc c)

  -- Whatever the order of the steps, the jobs are taken in the order in which they were added, as
  -- many threads have left their loop as exit jobs were taken, and each job that was taken is being
  -- run or was run, once.
  pub Reachable-IsOrderly : (s : ThreadPool) → Reachable count s → IsOrderly count s
  Reachable-IsOrderly s starts =
      let (a, b, c) = idle_threads count in
      record { fifo = refl; left = sym a; once = λ n. omega (arith, b n); threads = c }
  Reachable-IsOrderly s (steps b _ r (adds job _)) = added-IsOrderly job b (Reachable-IsOrderly b r)
  Reachable-IsOrderly s (steps b _ r (takes w _ _ e)) =
      taken-IsOrderly w b s e (Reachable-IsOrderly b r)
  Reachable-IsOrderly s (steps b _ r (finishes w _ _ e)) =
      finished-IsOrderly w b s e (Reachable-IsOrderly b r)
