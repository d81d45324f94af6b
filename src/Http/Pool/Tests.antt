-- ===== src/Http/Pool/Tests.antt =====
-- Runs of a client's connections, and the theorems on them at concrete inputs.
use ch_cpp_utils.Base.{
  ℕ, ◌≡◌, ◌↔◌, Str, refl, true, false, [], ◌∷◌, codes, modify, lookup, emplace, include, exclude,
  member,
}
use ch_cpp_utils.Base.Decimal.{to_string, decimal}
use ch_cpp_utils.Http.Pool.{
  HttpConnection, HttpClient, Clients, new_instance, delete_instances, new_connection, new_client,
  close_connections, delete_all, delete_connection, pointers, close, ev_connection_closed, opened,
  locked, connect, take_connection, create, open_connection,
}
use ch_cpp_utils.Http.Pool.Instances
use ch_cpp_utils.Http.Pool.Instances.{IsClient, new_instance-same}
use ch_cpp_utils.Http.Pool.Steps.{Reachable, starts, steps, opens}
use ch_cpp_utils.Http.Pool.Reuse.{open_connection_total}

-- What the runs below compute with.
runs : Unit {0}
unfolding close_connections delete_all delete_connection pointers new_instance delete_instances
    new_connection close ev_connection_closed connect take_connection create open_connection modify
    lookup emplace include exclude member to_string decimal
runs = tt

abbrev in_use : HttpConnection
in_use = record { hostname = codes "h"; port = 80; connected = true; busy = true }

-- A client with one connection in use, and one with two.
abbrev one : HttpClient
one = record {
  hostname = codes "h";
  port = 80;
  connections = (codes "h:80:", 0) ∷ [];
  free = [];
  heap = in_use ∷ [];
}

abbrev two : HttpClient
two = record one { heap = in_use ∷ in_use ∷ [] }

first_open : open_connection false (new_client (codes "h") 80) ≡ opened one 0
unfolding runs
first_open = refl

second_open : open_connection false one ≡ opened two 1
unfolding runs
second_open = refl

callback_locks : open_connection true (close 0 one) ≡ locked
unfolding runs
callback_locks = refl

one-Reachable : Reachable (codes "h") 80 one
one-Reachable =
    steps (new_client (codes "h") 80) one starts
      (opens false (new_client (codes "h") 80) one 0 first_open)

two-Reachable : Reachable (codes "h") 80 two
two-Reachable = steps one two one-Reachable (opens false one two 1 second_open)

-- Of two connections, the second one stays open.
closing_run : close_connections (λ p. true) two ≡ (
  record two {
    connections = [];
    free = codes "h:80:" ∷ [];
    heap = new_connection (codes "h") 80 ∷ in_use ∷ [];
  },
  0 ∷ [],
)
unfolding runs
closing_run = refl

open_connection_total_example :
    (c' : HttpClient) × (open_connection false one ≡ opened c' 1) × (c'.free ≡ [])
open_connection_total_example = open_connection_total (codes "h") 80 one one-Reachable

-- A process with one client.
abbrev registry : Clients
registry = (new_instance (codes "g") 81 (record { clients = []; client_heap = [] })).0

registry-Reachable : Instances.Reachable registry
registry-Reachable =
    Instances.makes (codes "g") 81 (record { clients = []; client_heap = [] }) Instances.starts

instance_runs :
    ((new_instance (codes "h") 81 registry).1 ≡ 1)
    × ((new_instance (codes "g") 81 (delete_instances registry)).1 ≡ 1)
    × ((new_instance (codes "g") 81 registry).1 ≡ 0)
unfolding runs
instance_runs = (refl, refl, refl)

new_instance-same_example :
    IsClient
      (codes "h")
      80
      (new_instance (codes "h") 80 registry).1
      (new_instance (codes "h") 80 registry).0
    × ((h' : Str) (p' : ℕ)
        → ((new_instance h' p' (new_instance (codes "h") 80 registry).0).1
            ≡ (new_instance (codes "h") 80 registry).1)
          ↔ ((h' ≡ codes "h") × (p' ≡ 80)))
new_instance-same_example = new_instance-same registry registry-Reachable (codes "h") 80
