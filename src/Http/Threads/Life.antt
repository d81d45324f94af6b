-- ===== src/Http/Threads/Life.antt =====
-- What the threads of a server listen on, and what they have done when the server is gone.
use ch_cpp_utils.Base.{
  ℕ, zero, suc, ◌+◌, ◌<◌, ◌≡◌, refl, ap, sym, ◌∙◌, Bool, true, false, Option, none, some, List, [],
  ◌∷◌, ◌++◌, append_assoc, append-nil, map, replicate, length, length-append, total, All, arith,
}
use ch_cpp_utils.ThreadPool.{Job, routine, exit, ThreadPool, new_pool, add_job, add_exits}
use ch_cpp_utils.ThreadPool.Steps.{Reachable, is_number, stops}
use ch_cpp_utils.ThreadPool.Shutdown.{shutdown_drains}
use ch_cpp_utils.Http.Threads.{
  HttpThread, HttpServer, new_thread, init, set_on_request, dispatch, start_threads, on_request,
  new_server, end_server,
}

-- A thread that accepts connections of a port and calls the server's handler.
abbrev pub Serves : ℕ → HttpThread → Type 0
Serves port t = (t.bound ≡ some port) × (t.on_request.onrequest ≡ some 0)

-- The port that the threads listen on: the one that the process listens on already.
abbrev pub listened : ℕ → Option ℕ → ℕ
listened port none = port
listened port (some p) = p

abbrev Bound : ℕ → HttpThread → Type 0
Bound port t = t.bound ≡ some port

All-last {ℓ κ} :
    {A : Type ℓ} (P : A → Type κ) (xs : List A) (x : A) → All P xs → P x → All P (xs ++ x ∷ [])
All-last P [] x h p = (p, tt)
All-last P (y ∷ xs) x (h, hs) p = (h, All-last P xs x hs p)

init-Bound :
    (port : ℕ) (listening : Option ℕ)
    → ((init true (new_thread port) listening).0.bound ≡ some (listened port listening))
      × ((init true (new_thread port) listening).1 ≡ some (listened port listening))
unfolding init
init-Bound port none = (refl, refl)
init-Bound port (some p) = (refl, refl)

pub replicate-shift :
    (n : ℕ) (x : Job) (xs : List Job) → (xs ++ x ∷ []) ++ replicate n x ≡ xs ++ replicate (suc n) x
replicate-shift n x xs = append_assoc xs (x ∷ []) (replicate n x)

added-add_job : (job : Job) (s : ThreadPool) → (add_job job s).added ≡ s.added ++ job ∷ []
unfolding add_job
added-add_job job s = refl

-- What start_threads makes of a server: bound threads, and a job for each.
record Starts (q : ℕ) (n : ℕ) (s s' : HttpServer) : Type 0 where
  bound : All (Bound q) s'.threads
  count : length s'.threads ≡ length s.threads + n
  jobs : s'.pool.added ≡ s.pool.added ++ replicate n dispatch

start_threads-Starts :
    (q : ℕ) (answers : List Bool) (listening : Option ℕ) (s : HttpServer)
    → All (λ b. b ≡ true) answers
    → listened s.port listening ≡ q
    → All (Bound q) s.threads
    → Starts q (length answers) s (start_threads answers listening s).0
unfolding start_threads
start_threads-Starts q [] listening s h e b = record {
  bound = b;
  count = omega arith;
  jobs = sym (append-nil s.pool.added);
}
start_threads-Starts q (true ∷ answers) listening s (h, hs) e b =
    let (thread, listening') = init true (new_thread s.port) listening in
    let s₁ : HttpServer = record s {
      threads = s.threads ++ thread ∷ [];
      pool = add_job dispatch s.pool;
    } in
    let (f, g) = init-Bound s.port listening in
    let rest =
      start_threads-Starts q answers listening' s₁ hs (ap (listened s.port) g ∙ e)
        (All-last (Bound q) s.threads thread b (f ∙ ap some e)) in
    record {
      bound = rest.bound;
      count = omega (arith, rest.count, length-append s.threads (thread ∷ []));
      jobs =
          rest.jobs
          ∙ ap (λ js. js ++ replicate (length answers) dispatch) (added-add_job dispatch s.pool)
          ∙ replicate-shift (length answers) dispatch s.pool.added;
    }
start_threads-Starts q (false ∷ answers) listening s (h, hs) e b = absurd (ground arith)

zero_add : (n : ℕ) → 0 + n ≡ n
zero_add n = omega arith

map-Serves :
    (q : ℕ) (ts : List HttpThread) → All (Bound q) ts → All (Serves q) (map (set_on_request 0 0) ts)
map-Serves q [] h = tt
map-Serves q (t ∷ ts) (h, hs) = ((h, refl), map-Serves q ts hs)

length-map : (ts : List HttpThread) → length (map (set_on_request 0 0) ts) ≡ length ts
length-map [] = refl
length-map (t ∷ ts) = ap suc (length-map ts)

pub added-add_exits : (n : ℕ) (s : ThreadPool) → (add_exits n s).added ≡ s.added ++ replicate n exit
unfolding add_exits
added-add_exits zero s = sym (append-nil s.added)
added-add_exits (suc n) s =
    added-add_exits n (add_job exit s)
    ∙ ap (λ js. js ++ replicate n exit) (added-add_job exit s)
    ∙ replicate-shift n exit s.added

pub replicate-ended :
    (n m : ℕ)
    → replicate n dispatch ++ replicate m exit ≡ map routine (replicate n 0) ++ replicate m exit
replicate-ended zero m = refl
replicate-ended (suc n) m = ap (λ js. dispatch ∷ js) (replicate-ended n m)

pub dispatches : (n : ℕ) → total (is_number 0) (replicate n 0) ≡ n
dispatches zero = refl
dispatches (suc n) = omega (arith, dispatches n)

module _ (port : ℕ) (answers : List Bool) (listening : Option ℕ)
    (binds : All (λ b. b ≡ true) answers) where
  -- A server has the threads that it was asked for and a job of the event loop for each, and each
  -- thread calls the server's handler and accepts connections, if libevent can bind the port: of the
  -- port of the server where no thread of the process listens yet, and else of the port that the
  -- process listens on already.
  pub new_server-Serves :
      All (Serves (listened port listening)) (new_server port answers listening).0.threads
      × (length (new_server port answers listening).0.threads ≡ length answers)
      × ((new_server port answers listening).0.pool.added ≡ replicate (length answers) dispatch)
  unfolding new_server on_request
  new_server-Serves =
      let s₀ : HttpServer = record {
        port = port;
        threads = [];
        pool = new_pool (length answers);
      } in
      let r = start_threads-Starts (listened port listening) answers listening s₀ binds refl tt in
      let s₁ = (start_threads answers listening s₀).0 in
      (
        map-Serves _ s₁.threads r.bound,
        length-map s₁.threads ∙ r.count ∙ zero_add (length answers),
        r.jobs,
      )

  -- When all threads of a destroyed server have left, its queue is empty and the event loop was run
  -- as often as the server has threads, in whatever order the threads took their steps. The server
  -- has a thread, libevent could bind the port, and the jobs that were added are those of the server
  -- and then of its destructor.
  end_server_drains :
      (s : ThreadPool)
      → Reachable (length answers) s
      → s.added ≡ (end_server (new_server port answers listening).0).pool.added
      → 0 < length answers
      → total stops s.workers ≡ length answers
      → (s.queue ≡ []) × (total (is_number 0) s.finished ≡ length answers)
  unfolding end_server
  end_server_drains s r e some_thread left =
      let (serves, n, jobs) = new_server-Serves in
      let server = (new_server port answers listening).0 in
      let (empty, ran) =
        shutdown_drains (length answers) (replicate (length answers) 0) s r
          (e
            ∙ added-add_exits (length server.threads) server.pool
            ∙ ap (λ js. js ++ replicate (length server.threads) exit) jobs
            ∙ ap (λ k. replicate (length answers) dispatch ++ replicate k exit) n
            ∙ replicate-ended (length answers) (length answers))
          some_thread left in
      (empty, ran 0 ∙ dispatches (length answers))
