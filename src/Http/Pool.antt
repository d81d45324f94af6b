-- ===== src/Http/Pool.antt =====
-- The connections of a client: HttpClientImpl of src/http/client/http-client.cpp and HttpConnection
-- of src/http/client/http-connection.cpp. A pointer to a connection is its position in the heap.
pub mod Steps
pub mod Invariant
pub mod Reached
pub mod Reuse
pub mod Instances
pub mod Closing
mod Tests
use ch_cpp_utils.Base.{
  ℕ, suc, ◌+◌, Bool, true, false, not, ◌&&◌, Option, none, some, List, [], ◌∷◌, ◌++◌, Str, codes,
  str_eq, length, is_nil, get_elem?, modify, Assoc, lookup, emplace, member, include, exclude,
  if◌then◌else◌,
}
use ch_cpp_utils.Base.Decimal.{to_string}

-- class HttpConnection; `connected` says whether it has a connection of libevent
pub record HttpConnection : Type 0 where
  pub hostname : Str
  pub port : ℕ
  pub connected : Bool
  pub busy : Bool

-- class HttpClientImpl
pub record HttpClient : Type 0 where
  pub hostname : Str
  pub port : ℕ
  pub connections : Assoc Str ℕ
  pub free : List Str
  pub heap : List HttpConnection

-- HttpConnection::HttpConnection
unfoldable pub new_connection : Str → ℕ → HttpConnection
new_connection hostname port = record {
  hostname = hostname;
  port = port;
  connected = false;
  busy = false;
}

abbrev pub address : Str → ℕ → Str
address hostname port = hostname ++ (codes ":" ++ (to_string port ++ codes ":"))

-- HttpConnection::getConnectionId
abbrev pub get_connection_id : HttpConnection → Str
get_connection_id c = address c.hostname c.port

-- HttpConnection::reset
abbrev pub reset : HttpConnection → HttpConnection
reset c = record c { connected = false; busy = false }

abbrev pub set_busy : Bool → HttpConnection → HttpConnection
set_busy b c = record c { busy = b }

-- The id of the connection that a pointer names; a pointer out of the heap is not used.
abbrev pub id_at : ℕ → HttpClient → Str
id_at p client = elim (get_elem? client.heap p) [ none ↦ [] | some c ↦ get_connection_id c ]

-- HttpClientImpl::HttpClientImpl
abbrev pub new_client : Str → ℕ → HttpClient
new_client hostname port = record {
  hostname = hostname;
  port = port;
  connections = [];
  free = [];
  heap = [];
}

-- HttpClientImpl::close
unfoldable pub close : ℕ → HttpClient → HttpClient
close p client =
    let client' = record client { heap = modify p (set_busy false) client.heap } in
    record client' { free = include (id_at p client') client'.free }

-- HttpClientImpl::evConnectionClosed
unfoldable pub ev_connection_closed : ℕ → HttpClient → HttpClient
ev_connection_closed p client =
    let client' = record client { heap = modify p reset client.heap } in
    record client' { free = include (id_at p client') client'.free }

-- How open ends: with a pointer, with a read through the end iterator of `connections`, or with a
-- second lock of the mutex that open holds.
pub data Opened : Type 0 where
  opened : HttpClient → ℕ → Opened
  fault locked : Opened

-- HttpConnection::connect. An existing connection runs the event loop, and each callback that the
-- loop runs then, evConnectionClosed or evHttpReqDone, locks the client's mutex.
unfoldable pub connect : Bool → ℕ → HttpClient → Opened
connect callback p client = elim (get_elem? client.heap p) [
  | none ↦ fault
  | some c ↦
      if c.connected && callback
      then locked
      else opened
          (record client { heap = modify p (λ c. record c { connected = true }) client.heap }) p
]

-- What open does with the connection that it found or made.
unfoldable pub take_connection : Bool → ℕ → HttpClient → Opened
take_connection callback p client = elim (connect callback p client) [
  | fault ↦ fault
  | locked ↦ locked
  | opened client' q ↦
      let client'' = record client' { heap = modify p (set_busy true) client'.heap } in
      opened (record client'' { free = exclude (id_at p client'') client''.free }) p
]

-- A connection that open makes, and its pointer.
unfoldable pub create : HttpClient → HttpClient × ℕ
create client =
    let c = new_connection client.hostname client.port in
    let p = length client.heap in
    (
      record client {
        heap = client.heap ++ c ∷ [];
        connections = emplace (get_connection_id c) p client.connections;
      },
      p,
    )

-- HttpClientImpl::open; `callback` says whether a callback runs while the loop is run
unfoldable pub open_connection : Bool → HttpClient → Opened
open_connection callback client = elim client.free [
  | [] ↦ let (client', p) = create client in take_connection callback p client'
  | id ∷ ids ↦ elim (lookup id client.connections) [
    | none ↦ fault
    | some p ↦ take_connection callback p client
  ]
]

-- HttpConnection::destroy as the destructor calls it, of the connection at `p`. `notifies` says whether libevent calls
-- the close callback of open as it frees its connection.
unfoldable pub delete_connection : Bool → ℕ → HttpClient → HttpClient
delete_connection notifies p client = elim (get_elem? client.heap p) [
  | none ↦ client
  | some c ↦
      let told = if notifies then ev_connection_closed p client else client in
      if c.connected
      then record told { heap = modify p (λ c. record c { connected = false }) told.heap }
      else client
]

unfoldable pub delete_all : (ℕ → Bool) → Assoc Str ℕ → HttpClient → HttpClient
delete_all notifies [] client = client
delete_all notifies ((id, p) ∷ cs) client =
    delete_all notifies cs (delete_connection (notifies p) p client)

unfoldable pub pointers : Assoc Str ℕ → List ℕ
pointers [] = []
pointers ((id, p) ∷ cs) = p ∷ pointers cs

-- HttpClientImpl::closeConnctions, and the connections that it deletes, in their order
unfoldable pub close_connections : (ℕ → Bool) → HttpClient → HttpClient × List ℕ
close_connections notifies client = (
  record (delete_all notifies client.connections client) { connections = [] },
  pointers client.connections,
)

-- The map of clients, whose shared pointers are positions in their heap.
pub record Clients : Type 0 where
  pub clients : Assoc Str ℕ
  pub client_heap : List HttpClient

-- The key of a client in the map.
abbrev pub client_key : Str → ℕ → Str
client_key hostname port = hostname ++ (codes ":" ++ to_string port)

-- HttpClientImpl::NewInstance
unfoldable pub new_instance : Str → ℕ → Clients → Clients × ℕ
new_instance hostname port s =
    let key = client_key hostname port in
    elim (lookup key s.clients) [
      | none ↦ (
        record s {
          clients = emplace key (length s.client_heap) s.clients;
          client_heap = s.client_heap ++ new_client hostname port ∷ [];
        },
        length s.client_heap,
      )
      | some p ↦ (s, p)
    ]

-- HttpClientImpl::DeleteInstances; a client that someone else holds stays.
unfoldable pub delete_instances : Clients → Clients
delete_instances s = record s { clients = [] }
