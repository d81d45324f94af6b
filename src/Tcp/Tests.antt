-- ===== src/Tcp/Tests.antt =====
-- Three connections, of which the listener drops the one with descriptor 0, and the theorems on them.
use ch_cpp_utils.Base.{
  length, map, total, ◌≤◌, ◌≡◌, refl, true, false, none, some, List, [], ◌∷◌, ◌++◌, codes, modify,
}
use ch_cpp_utils.ThreadPool.{add_job, take_job, finish_job, get_next_job}
use ch_cpp_utils.Tcp.{
  TcpServer, connection, message, disconnect, local_event, new_server, on_new_message,
  on_new_connection, on_peer_disconnect, handle_connection, new_local_event, run_routine, run_job,
  begin_job, end_job, read_message, on_error, on_timer_expiry,
}
use ch_cpp_utils.Tcp.Listener.{
  TcpListener, new_listener, add_dispatch, start, event_dispatch, accept_connection,
}
use ch_cpp_utils.Tcp.Steps.{
  Happens, accepts, begins, reads, fails, adds_event, expires, step, run, client_fds, all_handed_on,
}
use ch_cpp_utils.Tcp.Streams.{all_told, all_that_came, run-tells}
use ch_cpp_utils.Tcp.Serving.{served, IsServing, run-serves}
use ch_cpp_utils.ThreadPool.{routine}
use ch_cpp_utils.ThreadPool.Steps.{starts}
use ch_cpp_utils.ThreadPool.Shutdown.{is_busy}
use ch_cpp_utils.Tcp.Connections.{announced, range, run-announces}

-- What the runs below compute with.
runs : Unit {0}
unfolding add_job modify handle_connection new_local_event run_routine run_job begin_job end_job
    take_job finish_job get_next_job read_message on_error on_timer_expiry add_dispatch start
    event_dispatch accept_connection step run all_told all_that_came all_handed_on announced
runs = tt

abbrev server : TcpServer
server = on_new_message (1, 0) (on_new_connection (2, 0) (on_peer_disconnect (3, 0) new_server))

abbrev listener : TcpListener
listener = new_listener 80

abbrev happened : List Happens
happened =
    accepts (some 5)
    ∷ accepts (some 0)
    ∷ accepts none
    ∷ accepts (some 7)
    ∷ begins 0
    ∷ reads 0 (codes "a")
    ∷ reads 1 (codes "x")
    ∷ reads 0 (codes "b")
    ∷ fails 0 17
    ∷ adds_event (some 4) 9 (record { tv_sec = 1; tv_usec = 0 })
    ∷ expires 0
    ∷ []

calls_run :
    (run happened (listener, server)).1.calls
    ≡ connection 0 (2, 0)
      ∷ connection 1 (2, 0)
      ∷ message 0 (codes "a") 1 (1, 0)
      ∷ message 1 (codes "x") 1 (1, 0)
      ∷ message 0 (codes "b") 1 (1, 0)
      ∷ disconnect 0 17 (3, 0)
      ∷ local_event (4, 9)
      ∷ []
unfolding runs
calls_run = refl

refused_run : start (record { socket = some 3; binds = true; listens = false }) listener ≡ none
unfolding runs
refused_run = refl

run-tells_example :
    all_told 0 (run happened (listener, server)).1.calls ≡ [] ++ all_that_came 0 happened
unfolding runs
run-tells_example = run-tells 0 happened listener server (1, 0) refl

run-announces_example :
    (client_fds (run happened (listener, server)).1.clients ≡ 5 ∷ 7 ∷ [])
    × (announced (run happened (listener, server)).1.calls ≡ 0 ∷ 1 ∷ [])
unfolding runs
run-announces_example = run-announces happened listener server (2, 0) refl

server-IsServing : IsServing server
unfolding served
server-IsServing = record { pool = starts; jobs = refl; clients = refl }

run-serves_example :
    ((run happened (listener, server)).1.worker_pool.taken
        ++ (run happened (listener, server)).1.worker_pool.queue
      ≡ map routine (range 0 (length (run happened (listener, server)).1.routines)))
    × (served (run happened (listener, server)).1.routines
        ≡ range 0 (length (run happened (listener, server)).1.clients))
    × (total is_busy (run happened (listener, server)).1.worker_pool.workers ≤ 8)
run-serves_example = run-serves happened listener server server-IsServing

taken_run :
    ((run happened (listener, server)).1.worker_pool.taken ≡ routine 0 ∷ [])
    × ((run happened (listener, server)).1.worker_pool.queue ≡ routine 1 ∷ routine 2 ∷ [])
unfolding runs
taken_run = (refl, refl)
