-- ===== src/Tcp/Serving.antt =====
-- In which order clients are served, and how many at once.
use ch_cpp_utils.Base.{
  ℕ, zero, suc, ◌+◌, ◌≤◌, ◌≡◌, refl, ap, sym, ◌∙◌, Option, none, some, List, [], ◌∷◌, ◌++◌, map,
  length, length-append, length-modify, total, get_elem?, arith,
}
use ch_cpp_utils.ThreadPool.{
  Job, routine, exit, Worker, idle, stopped, busy, ThreadPool, add_job, take_job, finish_job,
}
use ch_cpp_utils.ThreadPool.Steps.{
  Reachable, steps, adds, takes, finishes, Reachable-IsOrderly, take_job-eq-some,
  finish_job-eq-some,
}
use ch_cpp_utils.ThreadPool.Shutdown.{is_busy}
use ch_cpp_utils.Timer.{TimeVal}
use ch_cpp_utils.Tcp.{
  Routine, worker_routine, local_event_routine, TcpServer, add_routine, handle_connection,
  new_local_event, run_routine, run_job, begin_with, begin_job, end_with, end_job, read_message,
  on_error, on_timer_expiry,
}
use ch_cpp_utils.Tcp.Listener.{TcpListener, accept_connection}
use ch_cpp_utils.Tcp.Steps.{
  Happens, accepts, listens, begins, ends, reads, fails, adds_event, expires, step, run,
}
use ch_cpp_utils.Tcp.Connections.{range}

-- The clients that jobs serve, in the order of the jobs.
unfoldable pub served : List Routine → List ℕ
served [] = []
served (worker_routine c ∷ rs) = c ∷ served rs
served (local_event_routine e ∷ rs) = served rs

-- The jobs of the pool are those of the routines, in their order; each client has one, in the order
-- of the clients.
pub record IsServing (s : TcpServer) : Type 0 where
  pub pool : Reachable 8 s.worker_pool
  pub jobs : s.worker_pool.added ≡ map routine (range 0 (length s.routines))
  pub clients : served s.routines ≡ range 0 (length s.clients)

range-last : (a n : ℕ) → range a n ++ (a + n) ∷ [] ≡ range a (suc n)
range-last a zero = ap (λ k. k ∷ []) (add_zero a)
  where
    add_zero : (n : ℕ) → n + 0 ≡ n
    add_zero n = omega arith
range-last a (suc n) =
    ap (λ k. a ∷ (range (suc a) n ++ k ∷ [])) (shift_add a n)
    ∙ ap (λ r. a ∷ r) (range-last (suc a) n)
  where
    shift_add : (m n : ℕ) → m + suc n ≡ suc m + n
    shift_add m n = omega arith

range_next : (n : ℕ) → range 0 n ++ n ∷ [] ≡ range 0 (suc n)
range_next n = ap (λ k. range 0 n ++ k ∷ []) (zero_add n) ∙ range-last 0 n
  where
    zero_add : (n : ℕ) → n ≡ 0 + n
    zero_add n = omega arith

map-append : (xs ys : List ℕ) → map routine (xs ++ ys) ≡ map routine xs ++ map routine ys
map-append [] ys = refl
map-append (x ∷ xs) ys = ap (λ r. routine x ∷ r) (map-append xs ys)

length-last {ℓ} : {A : Type ℓ} (xs : List A) (x : A) → length (xs ++ x ∷ []) ≡ suc (length xs)
length-last xs x = omega (arith, length-append xs (x ∷ []))

served-last-client :
    (rs : List Routine) (c : ℕ) → served (rs ++ worker_routine c ∷ []) ≡ served rs ++ c ∷ []
unfolding served
served-last-client [] c = refl
served-last-client (worker_routine d ∷ rs) c = ap (λ r. d ∷ r) (served-last-client rs c)
served-last-client (local_event_routine e ∷ rs) c = served-last-client rs c

served-last-event :
    (rs : List Routine) (e : ℕ) → served (rs ++ local_event_routine e ∷ []) ≡ served rs
unfolding served
served-last-event [] e = refl
served-last-event (worker_routine d ∷ rs) e = ap (λ r. d ∷ r) (served-last-event rs e)
served-last-event (local_event_routine x ∷ rs) e = served-last-event rs e

-- The pool and the routines after a job is added.
module _ (r : Routine) (s : TcpServer) (h : IsServing s) where
  added-pool : Reachable 8 (add_routine r s).worker_pool
  added-pool = steps s.worker_pool _ h.pool (adds (routine (length s.routines)) s.worker_pool)

  added-jobs :
      (add_routine r s).worker_pool.added
      ≡ map routine (range 0 (length (add_routine r s).routines))
  unfolding add_job
  added-jobs =
      ap (λ js. js ++ routine (length s.routines) ∷ []) h.jobs
      ∙ sym (map-append (range 0 (length s.routines)) (length s.routines ∷ []))
      ∙ ap (map routine) (range_next (length s.routines))
      ∙ ap (λ n. map routine (range 0 n)) (sym (length-last s.routines r))

handled-IsServing : (fd : ℕ) (s : TcpServer) → IsServing s → IsServing (handle_connection fd s)
unfolding handle_connection
handled-IsServing fd s h =
    let c = length s.clients in
    record {
      pool = added-pool (worker_routine c) s h;
      jobs = added-jobs (worker_routine c) s h;
      clients =
          served-last-client s.routines c
          ∙ ap (λ r. r ++ c ∷ []) h.clients
          ∙ range_next c
          ∙ ap (range 0) (sym (length-last s.clients _));
    }

event-IsServing :
    (callback : Option ℕ) (this_ : ℕ) (tv : TimeVal) (s : TcpServer)
    → IsServing s
    → IsServing (new_local_event callback this_ tv s)
unfolding new_local_event
event-IsServing callback this_ tv s h =
    let e = length s.local_events in
    record {
      pool = added-pool (local_event_routine e) s h;
      jobs = added-jobs (local_event_routine e) s h;
      clients = served-last-event s.routines e ∙ h.clients;
    }

run_routine-IsServing : (r : Routine) (s : TcpServer) → IsServing s → IsServing (run_routine r s)
unfolding run_routine
run_routine-IsServing (worker_routine c) s h = record {
  pool = h.pool;
  jobs = h.jobs;
  clients = h.clients ∙ ap (range 0) (sym (length-modify c _ s.clients));
}
run_routine-IsServing (local_event_routine e) s h = record {
  pool = h.pool;
  jobs = h.jobs;
  clients = h.clients;
}

run_job-IsServing : (job : Job) (s : TcpServer) → IsServing s → IsServing (run_job job s)
unfolding run_job
run_job-IsServing exit s h = h
run_job-IsServing (routine n) s h = go (get_elem? s.routines n)
  where
    go :
        (o : Option Routine)
        → IsServing (elim o as (λ _. TcpServer) [ none ↦ s | some r ↦ run_routine r s ])
    go none = h
    go (some r) = run_routine-IsServing r s h

-- A pool that a thread has moved on, with the same jobs added.
moved-IsServing :
    (pool : ThreadPool) (s : TcpServer)
    → IsServing s
    → Reachable 8 pool
    → pool.added ≡ s.worker_pool.added
    → IsServing (record s { worker_pool = pool })
moved-IsServing pool s h r e = record { pool = r; jobs = e ∙ h.jobs; clients = h.clients }

begin_with-IsServing :
    (w : ℕ) (o : Option ThreadPool) (queue : List Job) (s : TcpServer)
    → take_job w s.worker_pool ≡ o
    → IsServing s
    → IsServing (begin_with o queue s)
begin_with-IsServing w none queue s e h = h
begin_with-IsServing w (some pool) [] s e h = h
begin_with-IsServing w (some pool) (job ∷ queue) s e h =
    let (_, _, _, _, eq) = take_job-eq-some w s.worker_pool pool e in
    run_job-IsServing job (record s { worker_pool = pool })
      (moved-IsServing pool s h (steps s.worker_pool pool h.pool (takes w s.worker_pool pool e))
        (ap (λ (p : ThreadPool). p.added) eq))

end_with-IsServing :
    (w : ℕ) (o : Option ThreadPool) (s : TcpServer)
    → finish_job w s.worker_pool ≡ o
    → IsServing s
    → IsServing (end_with o s)
end_with-IsServing w none s e h = h
end_with-IsServing w (some pool) s e h =
    let (_, _, eq) = finish_job-eq-some w s.worker_pool pool e in
    moved-IsServing pool s h (steps s.worker_pool pool h.pool (finishes w s.worker_pool pool e))
      (ap (λ (p : ThreadPool). p.added) eq)

step-IsServing :
    (x : Happens) (l : TcpListener) (s : TcpServer) → IsServing s → IsServing (step x (l, s)).1
unfolding step accept_connection begin_job end_job read_message on_error on_timer_expiry
step-IsServing (accepts none) l s h = h
step-IsServing (accepts (some zero)) l s h = h
step-IsServing (accepts (some (suc fd))) l s h = handled-IsServing (suc fd) s h
step-IsServing listens l s h = h
step-IsServing (begins w) l s h =
    begin_with-IsServing w (take_job w s.worker_pool) s.worker_pool.queue s refl h
step-IsServing (ends w) l s h = end_with-IsServing w (finish_job w s.worker_pool) s refl h
step-IsServing (reads c bytes) l s h = record { pool = h.pool; jobs = h.jobs; clients = h.clients }
step-IsServing (fails c what) l s h = record {
  pool = h.pool;
  jobs = h.jobs;
  clients = h.clients ∙ ap (range 0) (sym (length-modify c _ s.clients));
}
step-IsServing (adds_event callback this_ tv) l s h = event-IsServing callback this_ tv s h
step-IsServing (expires e) l s h = record { pool = h.pool; jobs = h.jobs; clients = h.clients }

run-IsServing :
    (hs : List Happens) (l : TcpListener) (s : TcpServer)
    → IsServing s
    → IsServing (run hs (l, s)).1
unfolding run
run-IsServing [] l s h = h
run-IsServing (x ∷ hs) l s h =
    run-IsServing hs (step x (l, s)).0 (step x (l, s)).1 (step-IsServing x l s h)

busy_le : (ws : List Worker) → total is_busy ws ≤ length ws
busy_le [] = omega arith
busy_le (idle ∷ ws) = omega (arith, busy_le ws)
busy_le (stopped ∷ ws) = omega (arith, busy_le ws)
busy_le (busy n ∷ ws) = omega (arith, busy_le ws)

-- Whatever happens to a server, in whatever order, its pool takes the jobs in the order in which they
-- were added, those of the clients among them in the order in which they were accepted, one for each
-- client; and it runs at most eight at a time. The same holds of the jobs of the server before, whose
-- pool has eight threads.
pub run-serves :
    (hs : List Happens) (l : TcpListener) (s : TcpServer)
    → IsServing s
    → ((run hs (l, s)).1.worker_pool.taken ++ (run hs (l, s)).1.worker_pool.queue
        ≡ map routine (range 0 (length (run hs (l, s)).1.routines)))
      × (served (run hs (l, s)).1.routines ≡ range 0 (length (run hs (l, s)).1.clients))
      × (total is_busy (run hs (l, s)).1.worker_pool.workers ≤ 8)
run-serves hs l s h =
    let after = (run hs (l, s)).1 in
    let g = run-IsServing hs l s h in
    let o = Reachable-IsOrderly 8 after.worker_pool g.pool in
    (sym o.fifo ∙ g.jobs, g.clients, omega (arith, busy_le after.worker_pool.workers, o.threads))
