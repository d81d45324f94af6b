-- ===== src/Tcp/Listener.antt =====
-- class TcpListener of src/tcp-listener.cpp, which hands its connections to a TcpServer. What the
-- calls of the kernel answer is an argument.
use ch_cpp_utils.Base.{ℕ, zero, suc, Bool, true, false, Option, none, some, if◌then◌else◌}
use ch_cpp_utils.ThreadPool.{ThreadPool, new_pool, routine, add_job}
use ch_cpp_utils.Tcp.{TcpServer, handle_connection}

-- The members of a listener that its calls change, and the number of the events that eventDispatch
-- made, of which none is released.
pub record TcpListener : Type 0 where
  pub port : ℕ
  pub fd : Option ℕ
  pub thread : ThreadPool
  pub events : ℕ

-- TcpListener::TcpListener
abbrev pub new_listener : ℕ → TcpListener
new_listener port = record { port = port; fd = none; thread = new_pool 1; events = 0 }

-- The job of TcpListener::threadCbk.
unfoldable pub add_dispatch : TcpListener → TcpListener
add_dispatch l = record l { thread = add_job (routine 0) l.thread }

-- What socket, bind and listen answer in start.
pub record Answers : Type 0 where
  pub socket : Option ℕ
  pub binds : Bool
  pub listens : Bool

-- TcpListener::start; `none` is where it exits the process
unfoldable pub start : Answers → TcpListener → Option TcpListener
start a l = elim a.socket [
  | none ↦ none
  | some fd ↦
      if a.binds
      then (if a.listens then some (add_dispatch (record l { fd = some fd })) else none)
      else none
]

-- TcpListener::eventDispatch, before it runs the event loop
unfoldable pub event_dispatch : TcpListener → TcpListener
event_dispatch l = record l { events = suc l.events }

-- client_fd > 0, of a descriptor
abbrev pub is_positive : ℕ → Bool
is_positive zero = false
is_positive (suc n) = true

-- TcpListener::acceptConnection, given what accept answers, and TcpServer::onConnection
unfoldable pub accept_connection : Option ℕ → TcpListener × TcpServer → TcpListener × TcpServer
accept_connection none (l, s) = (add_dispatch l, s)
accept_connection (some fd) (l, s) =
    (add_dispatch l, if is_positive fd then handle_connection fd s else s)
