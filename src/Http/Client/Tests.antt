-- ===== src/Http/Client/Tests.antt =====
-- A client with two connections that sends once and is destroyed.
use ch_cpp_utils.Base.{
  ◌≡◌, refl, true, false, [], ◌∷◌, codes, drop, lookup, emplace, include, exclude, member, modify,
  total,
}
use ch_cpp_utils.Base.Decimal.{to_string, decimal}
use ch_cpp_utils.ThreadPool.{
  ThreadPool, routine, exit, idle, busy, stopped, new_pool, add_job, add_exits, get_next_job,
  take_job, finish_job,
}
use ch_cpp_utils.ThreadPool.Steps
use ch_cpp_utils.ThreadPool.Steps.{adds, takes, finishes, is_number}
use ch_cpp_utils.Http.Pool.{
  HttpConnection, HttpClient, new_client, new_connection, connect, take_connection, create,
  open_connection, close_connections, delete_all, delete_connection, pointers, ev_connection_closed,
}
use ch_cpp_utils.Http.Pool.Steps.{Reachable, starts, steps, opens}
use ch_cpp_utils.Http.Client.{with_thread, send, sends, end_client}
use ch_cpp_utils.Http.Client.Life.{end_client_drains}

-- What the runs below compute with.
runs : Unit {0}
unfolding new_connection ev_connection_closed connect take_connection create open_connection
    close_connections delete_all delete_connection pointers send sends end_client add_job add_exits
    get_next_job take_job finish_job modify lookup emplace include exclude member to_string decimal
runs = tt

abbrev in_use : HttpConnection
in_use = record { hostname = codes "h"; port = 80; connected = true; busy = true }

abbrev one : HttpClient
one = record (new_client (codes "h") 80) {
  connections = (codes "h:80:", 0) ∷ [];
  heap = in_use ∷ [];
}

abbrev two : HttpClient
two = record one { heap = in_use ∷ in_use ∷ [] }

two-Reachable : Reachable (codes "h") 80 two
unfolding runs
two-Reachable =
    steps one two
      (steps (new_client (codes "h") 80) one starts
        (opens false (new_client (codes "h") 80) one 0 refl))
      (opens false one two 1 refl)

abbrev given : ThreadPool
given = record (new_pool 1) { queue = routine 0 ∷ exit ∷ []; added = routine 0 ∷ exit ∷ [] }

abbrev running : ThreadPool
running = record given { queue = exit ∷ []; workers = busy 0 ∷ []; taken = routine 0 ∷ [] }

abbrev ran : ThreadPool
ran = record running { workers = idle ∷ []; finished = 0 ∷ [] }

abbrev over : ThreadPool
over = record ran { queue = []; workers = stopped ∷ []; taken = routine 0 ∷ exit ∷ [] }

over-Reachable : Steps.Reachable 1 over
unfolding runs
over-Reachable =
    Steps.steps ran over
      (Steps.steps running ran
        (Steps.steps given running
          (Steps.steps (add_job (routine 0) (new_pool 1)) given
            (Steps.steps (new_pool 1) (add_job (routine 0) (new_pool 1)) Steps.starts
              (adds (routine 0) (new_pool 1)))
            (adds exit (add_job (routine 0) (new_pool 1))))
          (takes 0 given running refl))
        (finishes 0 running ran refl))
      (takes 0 ran over refl)

over-added : over.added ≡ (end_client (λ p. true) (sends 1 (with_thread two))).0.pool.added
unfolding runs
over-added = refl

end_client_drains_example :
    ((end_client (λ p. true) (sends 1 (with_thread two))).1 ≡ 0 ∷ [])
    × (drop 1 (end_client (λ p. true) (sends 1 (with_thread two))).0.client.heap ≡ in_use ∷ [])
    × (over.queue ≡ [])
    × (total (is_number 0) over.finished ≡ 1)
end_client_drains_example =
    end_client_drains (codes "h") 80 two two-Reachable (λ p. true) 1 over over-Reachable over-added
      refl
