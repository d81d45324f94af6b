-- ===== src/Http/Threads/Tests.antt =====
-- Two servers of one thread in a process, and the theorems on them.
use ch_cpp_utils.Base.{◌≡◌, refl, true, none, some, [], ◌∷◌, length, All, modify}
use ch_cpp_utils.ThreadPool.{new_pool, add_job, add_exits, get_next_job, take_job, finish_job}
use ch_cpp_utils.Http.Threads.{
  HttpServer, init, fire, dispatch, start_threads, on_request, new_server, end_server,
}
use ch_cpp_utils.Http.Threads.Life.{Serves, new_server-Serves}

-- What the runs below compute with.
runs : Unit {0}
unfolding init fire start_threads on_request new_server end_server add_job add_exits get_next_job
    take_job finish_job modify
runs = tt

abbrev server : HttpServer
server = record {
  port = 80;
  threads =
      record { port = 80; bound = some 80; on_request = record { onrequest = some 0; this_ = 0 } }
      ∷ [];
  pool = record (new_pool 1) { queue = dispatch ∷ []; added = dispatch ∷ [] };
}

server_run : new_server 80 (true ∷ []) none ≡ (server, some 80)
unfolding runs
server_run = refl

-- The threads of a second server, of port 81, serve port 80.
new_server-Serves_example :
    All (Serves 80) (new_server 81 (true ∷ []) (some 80)).0.threads
    × (length (new_server 81 (true ∷ []) (some 80)).0.threads ≡ 1)
    × ((new_server 81 (true ∷ []) (some 80)).0.pool.added ≡ dispatch ∷ [])
new_server-Serves_example = new_server-Serves 81 (true ∷ []) (some 80) (refl, tt)
