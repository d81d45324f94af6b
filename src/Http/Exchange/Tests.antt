-- ===== src/Http/Exchange/Tests.antt =====
-- Requests that fail, one that succeeds and one that loses its connection, and the theorem on them.
use ch_cpp_utils.Base.{
  ◌+◌, ◌≡◌, refl, true, false, arith, none, some, List, [], ◌∷◌, codes, length, modify, lookup,
  emplace, str_eq, member, include, exclude,
}
use ch_cpp_utils.Http.Pool.{
  HttpClient, new_client, new_connection, create, connect, take_connection, open_connection, close,
  ev_connection_closed, HttpConnection,
}
use ch_cpp_utils.Http.Pool.Steps.{starts}
use ch_cpp_utils.Base.Decimal.{to_string, decimal}
use ch_cpp_utils.Http.Query.{add_headers}
use ch_cpp_utils.Http.Response.{response_headers}
use ch_cpp_utils.Http.Exchange.{EvResponse, OnLoad, on_load, fire, build_response, ev_http_req_done}
use ch_cpp_utils.Http.Exchange.Connections.{
  Event, opens, ends, loses, Leads, over, opening, ending, losing, leads-connections,
}

-- What the runs below compute with.
runs : Unit {0}
unfolding modify lookup emplace member include exclude new_connection create connect take_connection
    open_connection close add_headers response_headers fire build_response ev_http_req_done
    ev_connection_closed to_string decimal
runs = tt

abbrev ok : EvResponse
ok = record {
  response_code = 200;
  response_code_line = some (codes "OK");
  input_headers = (codes "Host", codes "h") ∷ [];
}

abbrev target : OnLoad
target = on_load 1 2

abbrev client : HttpClient
client = new_client (codes "h") 80

called_run :
    (ev_http_req_done (some ok) target 0 client).1
    ≡ some (record {
      onload = 1;
      response = record {
        response_code = 200;
        response_text = codes "OK";
        headers = (codes "host", codes "h") ∷ [];
      };
      this_ = 2;
    })
unfolding runs
called_run = refl

abbrev used : HttpConnection
used = record { hostname = codes "h"; port = 80; connected = true; busy = true }

abbrev one : HttpClient
one = record client { connections = (codes "h:80:", 0) ∷ []; heap = used ∷ [] }

abbrev two : HttpClient
two = record one { heap = used ∷ used ∷ [] }

-- The second connection was released, and the first one is in use again.
abbrev reused : HttpClient
reused = record one { heap = used ∷ record used { busy = false } ∷ [] }

-- A request that fails, one that succeeds, one that fails as its connection is closed, and a last
-- one: two connections for four requests.
abbrev happened : List Event
happened =
    opens ∷ ends 0 none ∷ opens ∷ ends 1 (some ok) ∷ opens ∷ loses 0 ∷ ends 0 none ∷ opens ∷ []

happened-Leads : Leads target client happened reused
unfolding runs
happened-Leads = opening false client one reused 0 _ refl (
    ending one reused 0 none _ (omega arith) (
      opening false one two reused 1 _ refl (
        ending two reused 1 (some ok) _ (omega arith) (
          opening false (close 1 two) reused reused 0 _ refl (
            losing reused reused 0 _ (omega arith) (
              ending (ev_connection_closed 0 reused) reused 0 none _ (omega arith) (
                opening false (ev_connection_closed 0 reused) reused reused 0 _ refl
                  (over reused))))))))

leads-connections_example : length reused.heap ≡ 2 + 0
leads-connections_example =
    leads-connections (codes "h") 80 target happened client reused starts happened-Leads
