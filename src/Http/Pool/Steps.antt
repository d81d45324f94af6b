-- ===== src/Http/Pool/Steps.antt =====
-- The calls of a client as steps, and what holds of every client that they reach.
use ch_cpp_utils.Base.{
  ℕ, ◌<◌, ◌≡◌, Bool, true, false, some, Str, str_eq, length, get_elem?, modify, exclude, arith,
}
use ch_cpp_utils.Http.Pool.{
  HttpConnection, HttpClient, get_connection_id, set_busy, id_at, new_client, close,
  ev_connection_closed, opened, connect, take_connection, open_connection,
}

-- One call on a client, or one closed connection. A pointer that is used is one of the heap.
pub data Step : HttpClient → HttpClient → Type 0 where
  opens :
      (callback : Bool) (c c' : HttpClient) (p : ℕ)
      → open_connection callback c ≡ opened c' p
      → Step c c'
  closes : (p : ℕ) (c : HttpClient) → p < length c.heap → Step c (close p c)
  peer_closes : (p : ℕ) (c : HttpClient) → p < length c.heap → Step c (ev_connection_closed p c)

-- The clients that calls make of a new one.
pub data Reachable (hostname : Str) (port : ℕ) : HttpClient → Type 0 where
  starts : Reachable hostname port (new_client hostname port)
  steps : (c c' : HttpClient) → Reachable hostname port c → Step c c' → Reachable hostname port c'

pub id_of_found :
    (p : ℕ) (c : HttpClient) (d : HttpConnection)
    → get_elem? c.heap p ≡ some d
    → id_at p c ≡ get_connection_id d
id_of_found p c d there = ground arith

-- The client after its connection at `p` is handed out.
abbrev pub taken : ℕ → HttpClient → HttpClient
taken p c =
    let c₁ = record c { heap = modify p (λ d. record d { connected = true }) c.heap } in
    let c₂ = record c₁ { heap = modify p (set_busy true) c₁.heap } in
    record c₂ { free = exclude (id_at p c₂) c₂.free }

pub take_connection-eq-opened :
    (b : Bool) (p q : ℕ) (c c' : HttpClient)
    → take_connection b p c ≡ opened c' q
    → (c' ≡ taken p c) × (q ≡ p)
unfolding take_connection connect
take_connection-eq-opened b p q c c' h = ground arith

pub take_connection_total :
    (p : ℕ) (c : HttpClient) (d : HttpConnection)
    → get_elem? c.heap p ≡ some d
    → take_connection false p c ≡ opened (taken p c) p
unfolding take_connection connect
take_connection_total p c d there = ground arith
