-- ===== src/Http/Pool/Reached.antt =====
-- What holds of every client that calls reach.
use ch_cpp_utils.Base.{
  ℕ, ◌<◌, ◌≡◌, inl, inr, refl, sym, ◌∙◌, Bool, false, List, [], ◌∷◌, Str, str_eq, str_beq_refl,
  length, is_nil, lookup, arith, subst,
}
use ch_cpp_utils.Http.Pool.{
  HttpConnection, HttpClient, new_connection, address, reset, set_busy, new_client, close,
  ev_connection_closed, opened, take_connection, create, open_connection,
}
use ch_cpp_utils.Http.Pool.Steps.{
  Step, Reachable, opens, closes, peer_closes, starts, steps, take_connection-eq-opened,
}
use ch_cpp_utils.Http.Pool.Invariant.{
  IsPool, taken-IsPool, create-IsPool, created_last, free-IsPool,
}

pub open_new :
    (b : Bool) (c : HttpClient)
    → c.free ≡ []
    → open_connection b c ≡ take_connection b (length c.heap) (create c).0
unfolding open_connection create
open_new b c e = ground arith

pub nonempty_length : (heap : List HttpConnection) → is_nil heap ≡ false → 0 < length heap
nonempty_length [] n = cc
nonempty_length (d ∷ heap) n = omega arith

pub created_in_heap : (c : HttpClient) → length c.heap < length (create c).0.heap
unfolding create
created_in_heap c = (created_last c.heap (new_connection c.hostname c.port)).1

module _ (hostname : Str) (port : ℕ) where
  pub open_first :
      (b : Bool) (c : HttpClient)
      → IsPool hostname port c
      → c.free ≡ address hostname port ∷ []
      → is_nil c.heap ≡ false
      → open_connection b c ≡ take_connection b 0 c
  unfolding open_connection lookup
  open_first b c h e n = ground (arith, h.first, str_beq_refl (address hostname port))

  opened-IsPool :
      (b : Bool) (c c' : HttpClient) (p : ℕ)
      → IsPool hostname port c
      → open_connection b c ≡ opened c' p
      → IsPool hostname port c'
  opened-IsPool b c c' p h e = elim h.free_id [
    | inl none_free ↦
        let took =
          take_connection-eq-opened b (length c.heap) p (create c).0 c'
            (sym (open_new b c none_free) ∙ e) in
        subst (IsPool hostname port) (sym took.0)
          (taken-IsPool hostname port (length c.heap) (create c).0 (created_in_heap c)
            (create-IsPool hostname port c h none_free)).1
    | inr (is_free, n) ↦
        let took = take_connection-eq-opened b 0 p c c' (sym (open_first b c h is_free n) ∙ e) in
        subst (IsPool hostname port) (sym took.0)
          (taken-IsPool hostname port 0 c (nonempty_length c.heap n) h).1
  ]

  stepped-IsPool :
      (c c' : HttpClient) → IsPool hostname port c → Step c c' → IsPool hostname port c'
  unfolding close ev_connection_closed
  stepped-IsPool c c' h (opens b _ _ p e) = opened-IsPool b c c' p h e
  stepped-IsPool c c' h (closes p _ k) =
      free-IsPool hostname port p (set_busy false) c (λ d o. o) k h
  stepped-IsPool c c' h (peer_closes p _ k) = free-IsPool hostname port p reset c (λ d o. o) k h

  IsPool-new : IsPool hostname port (new_client hostname port)
  IsPool-new = record {
    own_hostname = refl;
    own_port = refl;
    own = tt;
    first = refl;
    free_id = inl refl;
  }

-- However a client is used, its connections all have its host and its port, its map holds the first
-- connection that it made and no other, and its set of free ids holds at most the one id that they
-- all have.
pub Reachable-IsPool :
    (hostname : Str) (port : ℕ) (c : HttpClient)
    → Reachable hostname port c
    → IsPool hostname port c
Reachable-IsPool hostname port c starts = IsPool-new hostname port
Reachable-IsPool hostname port c (steps b _ r s) =
    stepped-IsPool hostname port b c (Reachable-IsPool hostname port b r) s
