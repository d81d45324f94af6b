-- ===== src/Http/Pool/Closing.antt =====
-- What closeConnctions of src/http/client/http-client.cpp deletes.
use ch_cpp_utils.Base.{
  ℕ, ◌≡◌, ◌⊎◌, refl, Bool, false, List, [], ◌∷◌, Str, is_nil, drop, modify, if◌then◌else◌,
  Bool-cases, inl, inr, arith,
}
use ch_cpp_utils.Http.Pool.{
  HttpConnection, HttpClient, address, reset, ev_connection_closed, delete_connection, delete_all,
  pointers, close_connections,
}
use ch_cpp_utils.Http.Pool.Steps.{Reachable}
use ch_cpp_utils.Http.Pool.Reached.{Reachable-IsPool}

-- Whether the first connection of a heap has a connection of libevent.
unfoldable pub first_connected : List HttpConnection → Bool
first_connected [] = false
first_connected (d ∷ ds) = d.connected

heap_shape :
    (heap : List HttpConnection)
    → (heap ≡ []) ⊎ ((d : HttpConnection) × (ds : List HttpConnection) × (heap ≡ d ∷ ds))
heap_shape [] = inl refl
heap_shape (d ∷ ds) = inr (d, ds, refl)

-- The heap after its first connection was deleted.
deleted_first :
    (notifies : Bool) (c : HttpClient) (d : HttpConnection) (ds : List HttpConnection)
    → c.heap ≡ d ∷ ds
    → (d' : HttpConnection) × ((delete_connection notifies 0 c).heap ≡ d' ∷ ds)
      × (d'.connected ≡ false)
unfolding delete_connection ev_connection_closed modify
deleted_first notifies c d ds e = elim (Bool-cases d.connected) [
  | inr off ↦ (d, ground (arith, e, off), off)
  | inl on ↦ elim (Bool-cases notifies) [
    | inl tells ↦ (record (reset d) { connected = false }, ground (arith, e, on, tells), refl)
    | inr quiet ↦ (record d { connected = false }, ground (arith, e, on, quiet), refl)
  ]
]

abbrev pub ClosesFirst : (ℕ → Bool) → HttpClient → Type 0
ClosesFirst notifies c =
    ((close_connections notifies c).0.connections ≡ [])
    × ((close_connections notifies c).1 ≡ (if is_nil c.heap then [] else 0 ∷ []))
    × (first_connected (close_connections notifies c).0.heap ≡ false)
    × (drop 1 (close_connections notifies c).0.heap ≡ drop 1 c.heap)

module _ (notifies : ℕ → Bool) (c : HttpClient) where
  closes_none : c.heap ≡ [] → c.connections ≡ [] → ClosesFirst notifies c
  unfolding close_connections delete_all pointers first_connected
  closes_none e f = (refl, ground (arith, e, f), ground (arith, e, f), ground (arith, e, f))

  closes_one :
      (id : Str) (d : HttpConnection) (ds : List HttpConnection)
      → c.heap ≡ d ∷ ds
      → c.connections ≡ (id, 0) ∷ []
      → ClosesFirst notifies c
  unfolding close_connections delete_all pointers first_connected
  closes_one id d ds e f =
      let (d', e', off) = deleted_first (notifies 0) c d ds e in
      (refl, ground (arith, e, f), ground (arith, e', f, off), ground (arith, e, e', f))

-- On any client that calls made, closeConnctions leaves its map empty and deletes the first
-- connection that the client made, if it made one: that one is not connected any more. Every other
-- connection stays as it was, whether or not libevent calls the close callbacks.
pub close_connections-first :
    (hostname : Str) (port : ℕ) (c : HttpClient)
    → Reachable hostname port c
    → (notifies : ℕ → Bool) → ClosesFirst notifies c
close_connections-first hostname port c r notifies =
    let h = Reachable-IsPool hostname port c r in
    elim (heap_shape c.heap) [
      | inl e ↦ closes_none notifies c e (ground (arith, h.first, e))
      | inr (d, ds, e) ↦
          closes_one notifies c (address hostname port) d ds e (ground (arith, h.first, e))
    ]
