-- ===== src/Tcp/Steps.antt =====
-- What can happen to a TCP server, in any order, and what each step adds to it.
use ch_cpp_utils.Base.{
  ℕ, zero, suc, ◌%◌, ◌^◌, ◌≡◌, refl, ap, sym, ◌∙◌, Option, none, some, List, [], ◌∷◌, ◌++◌,
  append-nil, map, length, modify, get_elem?, if◌then◌else◌,
}
use ch_cpp_utils.Timer.{TimeVal}
use ch_cpp_utils.ThreadPool.{Job, routine, exit, ThreadPool, take_job, finish_job}
use ch_cpp_utils.Tcp.{
  ClientCtxt, Routine, UserCall, connection, message, disconnect, TcpServer, handle_connection,
  new_local_event, run_routine, run_job, begin_with, begin_job, end_with, end_job, read_message,
  on_error, on_timer_expiry, expired, called, worker_routine, local_event_routine,
}
use ch_cpp_utils.Tcp.Listener.{TcpListener, is_positive, accept_connection, event_dispatch}

-- What happens to a server: accept answers, the listener's thread runs its job, a thread of the pool
-- takes a job or ends one, bytes or an error come on a client's connection, or the user adds an
-- event or its time ends.
pub data Happens : Type 0 where
  accepts : Option ℕ → Happens
  listens : Happens
  begins ends : ℕ → Happens
  reads : (client : ℕ) (bytes : List ℕ) → Happens
  fails : (client what : ℕ) → Happens
  adds_event : (callback : Option ℕ) (this_ : ℕ) (tv : TimeVal) → Happens
  expires : ℕ → Happens

unfoldable pub step : Happens → TcpListener × TcpServer → TcpListener × TcpServer
step (accepts answer) (l, s) = accept_connection answer (l, s)
step listens (l, s) = (event_dispatch l, s)
step (begins w) (l, s) = (l, begin_job w s)
step (ends w) (l, s) = (l, end_job w s)
step (reads c bytes) (l, s) = (l, read_message c bytes s)
step (fails c what) (l, s) = (l, on_error c what s)
step (adds_event callback this_ tv) (l, s) = (l, new_local_event callback this_ tv s)
step (expires e) (l, s) = (l, on_timer_expiry e s)

unfoldable pub run : List Happens → TcpListener × TcpServer → TcpListener × TcpServer
run [] s = s
run (h ∷ hs) s = run hs (step h s)

-- The descriptors of the connections that the listener hands on.
abbrev pub handed_on : Happens → List ℕ
handed_on (accepts none) = []
handed_on (accepts (some fd)) = if is_positive fd then fd ∷ [] else []
handed_on listens = []
handed_on (begins w) = []
handed_on (ends w) = []
handed_on (reads d bytes) = []
handed_on (fails d what) = []
handed_on (adds_event callback this_ tv) = []
handed_on (expires e) = []

unfoldable pub all_handed_on : List Happens → List ℕ
all_handed_on [] = []
all_handed_on (h ∷ hs) = handed_on h ++ all_handed_on hs

-- The calls of callbacks that a step makes.
abbrev pub new_calls : Happens → TcpServer → List UserCall
new_calls (accepts none) s = []
new_calls (accepts (some fd)) s =
    if is_positive fd then called s.on_connection (connection (length s.clients)) else []
new_calls listens s = []
new_calls (begins w) s = []
new_calls (ends w) s = []
new_calls (reads d bytes) s = called s.on_message (message d bytes (length bytes % 2 ^ 32))
new_calls (fails d what) s = called s.on_disconnect (disconnect d what)
new_calls (adds_event callback this_ tv) s = []
new_calls (expires e) s = expired s.local_events e

-- The descriptors of a server's clients.
abbrev pub client_fds : List ClientCtxt → List ℕ
client_fds clients = map (λ (c : ClientCtxt). c.client_fd) clients

-- What a step keeps of a server and what it adds.
pub record Adds (h : Happens) (s s' : TcpServer) : Type 0 where
  pub calls : s'.calls ≡ s.calls ++ new_calls h s
  pub on_message : s'.on_message ≡ s.on_message
  pub on_connection : s'.on_connection ≡ s.on_connection
  pub fds : client_fds s'.clients ≡ client_fds s.clients ++ handed_on h

client_fds-modify :
    (n : ℕ) (f : ClientCtxt → ClientCtxt) (cs : List ClientCtxt)
    → ((c : ClientCtxt) → (f c).client_fd ≡ c.client_fd)
    → client_fds (modify n f cs) ≡ client_fds cs ++ []
unfolding modify
client_fds-modify n f [] h = refl
client_fds-modify zero f (c ∷ cs) h =
    ap (λ k. k ∷ client_fds cs) (h c) ∙ ap (λ r. c.client_fd ∷ r) (sym (append-nil (client_fds cs)))
client_fds-modify (suc n) f (c ∷ cs) h = ap (λ r. c.client_fd ∷ r) (client_fds-modify n f cs h)

map-append-last :
    (cs : List ClientCtxt) (c : ClientCtxt)
    → client_fds (cs ++ c ∷ []) ≡ client_fds cs ++ c.client_fd ∷ []
map-append-last [] c = refl
map-append-last (d ∷ cs) c = ap (λ r. d.client_fd ∷ r) (map-append-last cs c)

unchanged :
    (h : Happens) (s s' : TcpServer)
    → s'.calls ≡ s.calls
    → s'.on_message ≡ s.on_message
    → s'.on_connection ≡ s.on_connection
    → s'.clients ≡ s.clients
    → new_calls h s ≡ []
    → handed_on h ≡ []
    → Adds h s s'
unchanged h s s' a b c d e f = record {
  calls = a ∙ sym (append-nil s.calls) ∙ ap (λ r. s.calls ++ r) (sym e);
  on_message = b;
  on_connection = c;
  fds =
      ap client_fds d
      ∙ sym (append-nil (client_fds s.clients))
      ∙ ap (λ r. client_fds s.clients ++ r) (sym f);
}

run_routine-Adds : (w : ℕ) (r : Routine) (s : TcpServer) → Adds (begins w) s (run_routine r s)
unfolding run_routine
run_routine-Adds w (worker_routine c) s = record {
  calls = sym (append-nil s.calls);
  on_message = refl;
  on_connection = refl;
  fds = client_fds-modify c _ s.clients (λ _. refl);
}
run_routine-Adds w (local_event_routine e) s =
    unchanged (begins w) s _ refl refl refl refl refl refl

run_job-Adds : (w : ℕ) (job : Job) (s : TcpServer) → Adds (begins w) s (run_job job s)
unfolding run_job
run_job-Adds w exit s = unchanged (begins w) s s refl refl refl refl refl refl
run_job-Adds w (routine n) s = go (get_elem? s.routines n)
  where
    go :
        (o : Option Routine)
        → Adds (begins w) s (elim o as (λ _. TcpServer) [ none ↦ s | some r ↦ run_routine r s ])
    go none = unchanged (begins w) s s refl refl refl refl refl refl
    go (some r) = run_routine-Adds w r s

begin_with-Adds :
    (w : ℕ) (o : Option ThreadPool) (queue : List Job) (s : TcpServer)
    → Adds (begins w) s (begin_with o queue s)
begin_with-Adds w none queue s = unchanged (begins w) s s refl refl refl refl refl refl
begin_with-Adds w (some pool) [] s = unchanged (begins w) s s refl refl refl refl refl refl
begin_with-Adds w (some pool) (job ∷ queue) s =
    let a = run_job-Adds w job (record s { worker_pool = pool }) in
    record {
      calls = a.calls;
      on_message = a.on_message;
      on_connection = a.on_connection;
      fds = a.fds;
    }

end_with-Adds : (w : ℕ) (o : Option ThreadPool) (s : TcpServer) → Adds (ends w) s (end_with o s)
end_with-Adds w none s = unchanged (ends w) s s refl refl refl refl refl refl
end_with-Adds w (some pool) s = unchanged (ends w) s _ refl refl refl refl refl refl

pub step-Adds : (h : Happens) (l : TcpListener) (s : TcpServer) → Adds h s (step h (l, s)).1
unfolding step accept_connection handle_connection event_dispatch begin_job end_job read_message
    on_error new_local_event on_timer_expiry
step-Adds (accepts none) l s = unchanged (accepts none) s s refl refl refl refl refl refl
step-Adds (accepts (some zero)) l s =
    unchanged (accepts (some zero)) s s refl refl refl refl refl refl
step-Adds (accepts (some (suc fd))) l s = record {
  calls = refl;
  on_message = refl;
  on_connection = refl;
  fds = map-append-last s.clients _;
}
step-Adds listens l s = unchanged listens s s refl refl refl refl refl refl
step-Adds (begins w) l s = begin_with-Adds w (take_job w s.worker_pool) s.worker_pool.queue s
step-Adds (ends w) l s = end_with-Adds w (finish_job w s.worker_pool) s
step-Adds (reads d bytes) l s = record {
  calls = refl;
  on_message = refl;
  on_connection = refl;
  fds = sym (append-nil (client_fds s.clients));
}
step-Adds (fails d what) l s = record {
  calls = refl;
  on_message = refl;
  on_connection = refl;
  fds = client_fds-modify d _ s.clients (λ _. refl);
}
step-Adds (adds_event callback this_ tv) l s =
    unchanged (adds_event callback this_ tv) s _ refl refl refl refl refl refl
step-Adds (expires e) l s = record {
  calls = refl;
  on_message = refl;
  on_connection = refl;
  fds = sym (append-nil (client_fds s.clients));
}
