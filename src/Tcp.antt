-- ===== src/Tcp.antt =====
-- class TcpServer of src/tcp-server.cpp: its clients, the jobs of its pool and the callbacks of its
-- user. A client_ctxt and a local_event_ctxt are the numbers of their creation; what libevent reads
-- is an argument.
pub mod Listener
pub mod Steps
pub mod Streams
pub mod Connections
pub mod Serving
mod Tests
use ch_cpp_utils.Base.{
  ℕ, ◌%◌, ◌^◌, Bool, true, false, Option, none, some, List, [], ◌∷◌, ◌++◌, length, get_elem?,
  modify,
}
use ch_cpp_utils.ThreadPool.{
  Job, routine, exit, ThreadPool, new_pool, add_job, take_job, finish_job,
}
use ch_cpp_utils.Timer.{TimeVal}

-- struct _client_ctxt; `client_bev` says whether the client has a bufferevent
pub record ClientCtxt : Type 0 where
  pub client_fd : ℕ
  pub client_bev : Bool
  pub disconnected : Bool

-- struct _local_event_ctxt; `event` says whether its timer is added
pub record LocalEventCtxt : Type 0 where
  pub on_local_event : Option ℕ
  pub on_local_event_this : ℕ
  pub tv : TimeVal
  pub event : Bool

-- The routine of a job and its argument: workerRoutine of a client, localEventRoutine of an event.
pub data Routine : Type 0 where
  worker_routine local_event_routine : ℕ → Routine

-- A callback and the pointer that it is given
abbrev pub Target : Type 0
Target = Option (ℕ × ℕ)

-- A call of a callback, with the client, what it is told, and the callback with its pointer.
pub data UserCall : Type 0 where
  connection : (client : ℕ) → ℕ × ℕ → UserCall
  message : (client : ℕ) (bytes : List ℕ) (length : ℕ) → ℕ × ℕ → UserCall
  disconnect : (client what : ℕ) → ℕ × ℕ → UserCall
  local_event : ℕ × ℕ → UserCall

-- class TcpServer, with the routines of its jobs and the calls of its callbacks in their order
pub record TcpServer : Type 0 where
  pub worker_pool : ThreadPool
  pub routines : List Routine
  pub clients : List ClientCtxt
  pub local_events : List LocalEventCtxt
  pub on_message : Target
  pub on_connection : Target
  pub on_disconnect : Target
  pub calls : List UserCall

-- TcpServer::TcpServer, and the pool that start makes
abbrev pub new_server : TcpServer
new_server = record {
  worker_pool = new_pool 8;
  routines = [];
  clients = [];
  local_events = [];
  on_message = none;
  on_connection = none;
  on_disconnect = none;
  calls = [];
}

-- TcpServer::OnNewMessage, OnNewConnection and OnPeerDisconnect
abbrev pub on_new_message : ℕ × ℕ → TcpServer → TcpServer
on_new_message target s = record s { on_message = some target }

abbrev pub on_new_connection : ℕ × ℕ → TcpServer → TcpServer
on_new_connection target s = record s { on_connection = some target }

abbrev pub on_peer_disconnect : ℕ × ℕ → TcpServer → TcpServer
on_peer_disconnect target s = record s { on_disconnect = some target }

-- A callback that is called if it is set.
abbrev pub called : Target → (ℕ × ℕ → UserCall) → List UserCall
called none call = []
called (some target) call = call target ∷ []

-- A job with its routine, added to the pool
abbrev pub add_routine : Routine → TcpServer → TcpServer
add_routine r s = record s {
  worker_pool = add_job (routine (length s.routines)) s.worker_pool;
  routines = s.routines ++ r ∷ [];
}

-- TcpServer::handleConnection
unfoldable pub handle_connection : ℕ → TcpServer → TcpServer
handle_connection fd s =
    let c = length s.clients in
    let client : ClientCtxt = record { client_fd = fd; client_bev = false; disconnected = false } in
    let s' = add_routine (worker_routine c) (record s { clients = s.clients ++ client ∷ [] }) in
    record s' { calls = s'.calls ++ called s'.on_connection (connection c) }

-- TcpServer::newLocalEvent
unfoldable pub new_local_event : Option ℕ → ℕ → TimeVal → TcpServer → TcpServer
new_local_event callback this_ tv s =
    let e : LocalEventCtxt = record {
      on_local_event = callback;
      on_local_event_this = this_;
      tv = tv;
      event = false;
    } in
    add_routine (local_event_routine (length s.local_events))
      (record s { local_events = s.local_events ++ e ∷ [] })

-- TcpServer::workerRoutine and localEventRoutine, before they run the event loop
unfoldable pub run_routine : Routine → TcpServer → TcpServer
run_routine (worker_routine c) s = record s {
  clients = modify c (λ client. record client { client_bev = true }) s.clients;
}
run_routine (local_event_routine e) s = record s {
  local_events = modify e (λ l. record l { event = true }) s.local_events;
}

-- The job that a thread of the pool took, up to the event loop that it runs
unfoldable pub run_job : Job → TcpServer → TcpServer
run_job exit s = s
run_job (routine n) s = elim (get_elem? s.routines n) [ none ↦ s | some r ↦ run_routine r s ]

abbrev pub begin_with : Option ThreadPool → List Job → TcpServer → TcpServer
begin_with none queue s = s
begin_with (some pool) [] s = s
begin_with (some pool) (job ∷ queue) s = run_job job (record s { worker_pool = pool })

-- A thread of the pool takes a job and runs its routine; one that cannot take a job waits.
unfoldable pub begin_job : ℕ → TcpServer → TcpServer
begin_job w s = begin_with (take_job w s.worker_pool) s.worker_pool.queue s

abbrev pub end_with : Option ThreadPool → TcpServer → TcpServer
end_with none s = s
end_with (some pool) s = record s { worker_pool = pool }

-- The event loop of a thread's job returns.
unfoldable pub end_job : ℕ → TcpServer → TcpServer
end_job w s = end_with (finish_job w s.worker_pool) s

-- TcpServer::readMessage, given all that the bufferevent holds; the callback is given its length in
-- 32 bits
unfoldable pub read_message : ℕ → List ℕ → TcpServer → TcpServer
read_message c bytes s = record s {
  calls = s.calls ++ called s.on_message (message c bytes (length bytes % 2 ^ 32));
}

-- TcpServer::onError
unfoldable pub on_error : ℕ → ℕ → TcpServer → TcpServer
on_error c what s = record s {
  clients = modify c (λ client. record client { disconnected = true }) s.clients;
  calls = s.calls ++ called s.on_disconnect (disconnect c what);
}

-- The call of the callback of a local event, if it is set.
abbrev pub expired : List LocalEventCtxt → ℕ → List UserCall
expired events e = elim (get_elem? events e) [
  | none ↦ []
  | some l ↦ elim l.on_local_event [
    | none ↦ []
    | some callback ↦ local_event (callback, l.on_local_event_this) ∷ []
  ]
]

-- TcpServer::onTimerExpiry
unfoldable pub on_timer_expiry : ℕ → TcpServer → TcpServer
on_timer_expiry e s = record s { calls = s.calls ++ expired s.local_events e }
