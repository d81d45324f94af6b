-- ===== src/Http/Threads.antt =====
-- The threads of a server: HttpServer of src/http/server/http-server.cpp and HttpThread of
-- src/http/server/http-thread.cpp. Whether libevent can bind a port is an argument.
pub mod Life
mod Tests
use ch_cpp_utils.Base.{
  ℕ, zero, suc, Bool, true, false, Option, none, some, List, [], ◌∷◌, ◌++◌, length, map,
  if◌then◌else◌,
}
use ch_cpp_utils.ThreadPool.{Job, routine, exit, ThreadPool, new_pool, add_job, add_exits}
use ch_cpp_utils.Http.Server.{EvRequest, RequestEvent, request_event}

-- class OnRequest
pub record OnRequest : Type 0 where
  pub onrequest : Option ℕ
  pub this_ : ℕ

-- class HttpThread; `bound` is the port of the socket on which it accepts connections, `none` for a
-- null evBoundSocket
pub record HttpThread : Type 0 where
  pub port : ℕ
  pub bound : Option ℕ
  pub on_request : OnRequest

-- class HttpServer, with its queue and its threads as a pool of threads
pub record HttpServer : Type 0 where
  pub port : ℕ
  pub threads : List HttpThread
  pub pool : ThreadPool

-- HttpThread::HttpThread, with the members of OnRequest::OnRequest
abbrev pub new_thread : ℕ → HttpThread
new_thread port = record {
  port = port;
  bound = none;
  on_request = record { onrequest = none; this_ = 0 };
}

-- HttpThread::init. The static evListenSocket, here the port that it is bound to, is that of all
-- threads of the process; `binds` says whether evhttp_bind_socket_with_handle answers one.
unfoldable pub init : Bool → HttpThread → Option ℕ → HttpThread × Option ℕ
init binds thread none =
    let socket = if binds then some thread.port else none in
    (record thread { bound = socket }, socket)
init binds thread (some listening) = (record thread { bound = some listening }, some listening)

-- HttpThread::onRequest and OnRequest::bind
abbrev pub set_on_request : ℕ → ℕ → HttpThread → HttpThread
set_on_request onrequest this_ thread = record thread {
  on_request = record { onrequest = some onrequest; this_ = this_ };
}

-- OnRequest::fire: the handler that is called with the event of the request, and its pointer
unfoldable pub fire : EvRequest → OnRequest → Option (ℕ × RequestEvent × ℕ)
fire request target = elim target.onrequest [
  | none ↦ none
  | some onrequest ↦ some (onrequest, request_event request, target.this_)
]

-- The job of HttpServer::_workerRoutine, which runs the event loop of its thread.
abbrev pub dispatch : Job
dispatch = routine 0

-- The first loop of HttpServer::createThreads, with the answers to the threads that bind.
unfoldable pub start_threads : List Bool → Option ℕ → HttpServer → HttpServer × Option ℕ
start_threads [] listening s = (s, listening)
start_threads (binds ∷ answers) listening s =
    let (thread, listening') = init binds (new_thread s.port) listening in
    start_threads answers listening'
      (record s { threads = s.threads ++ thread ∷ []; pool = add_job dispatch s.pool })

-- HttpServer::onRequest
unfoldable pub on_request : ℕ → ℕ → HttpServer → HttpServer
on_request onrequest this_ s = record s { threads = map (set_on_request onrequest this_) s.threads }

-- HttpServer::HttpServer, with an answer for each of its threads. Its own onRequestEvent is the
-- handler 0.
unfoldable pub new_server : ℕ → List Bool → Option ℕ → HttpServer × Option ℕ
new_server port answers listening =
    let (s, listening') =
      start_threads answers listening
        (record { port = port; threads = []; pool = new_pool (length answers) }) in
    (on_request 0 0 s, listening')

-- The jobs of HttpServer::~HttpServer, one for each thread
unfoldable pub end_server : HttpServer → HttpServer
end_server s = record s { pool = add_exits (length s.threads) s.pool }
