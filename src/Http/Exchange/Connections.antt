-- ===== src/Http/Exchange/Connections.antt =====
-- How many connections the requests of a client make, in whatever order they are opened and end.
use ch_cpp_utils.Base.{
  ℕ, suc, ◌+◌, ◌<◌, ◌≡◌, inl, inr, ap, sym, ◌∙◌, Bool, true, false, Option, none, some, List, [],
  ◌∷◌, Str, length, is_nil, length-append, length-modify, if◌then◌else◌, arith,
}
use ch_cpp_utils.Http.Pool.{
  HttpClient, new_connection, reset, set_busy, close, ev_connection_closed, opened, create,
  open_connection,
}
use ch_cpp_utils.Http.Pool.Steps
use ch_cpp_utils.Http.Pool.Steps.{Reachable, closes, peer_closes, steps, take_connection-eq-opened}
use ch_cpp_utils.Http.Pool.Invariant.{taken-IsPool, create-IsPool}
use ch_cpp_utils.Http.Pool.Reached.{
  open_new, open_first, nonempty_length, created_in_heap, Reachable-IsPool,
}
use ch_cpp_utils.Http.Pool.Reuse.{taken_length, close-free, include_not_nil}
use ch_cpp_utils.Http.Exchange.{EvResponse, OnLoad, ev_http_req_done}

-- What happens to a client: open is called, a request on a connection is done, or libevent calls the
-- close callback of a connection.
pub data Event : Type 0 where
  opens : Event
  ends : ℕ → Option EvResponse → Event
  loses : ℕ → Event

-- The events that lead from a client to another one. `callback` says whether a callback runs inside
-- open, and a pointer that is used is one of the heap.
pub data Leads (target : OnLoad) : HttpClient → List Event → HttpClient → Type 0 where
  over : (c : HttpClient) → Leads target c [] c
  opening :
      (callback : Bool) (c c₁ c' : HttpClient) (p : ℕ) (es : List Event)
      → open_connection callback c ≡ opened c₁ p
      → Leads target c₁ es c'
      → Leads target c (opens ∷ es) c'
  ending :
      (c c' : HttpClient) (p : ℕ) (r : Option EvResponse) (es : List Event)
      → p < length c.heap
      → Leads target (ev_http_req_done r target p c).0 es c'
      → Leads target c (ends p r ∷ es) c'
  losing :
      (c c' : HttpClient) (p : ℕ) (es : List Event)
      → p < length c.heap
      → Leads target (ev_connection_closed p c) es c'
      → Leads target c (loses p ∷ es) c'

-- The calls of open with no successful end and no closed connection since the call before. `b` says
-- whether that holds of a first call.
abbrev pub unreleased : Bool → List Event → ℕ
unreleased b [] = 0
unreleased b (opens ∷ es) = (if b then 1 else 0) + unreleased true es
unreleased b (ends p none ∷ es) = unreleased b es
unreleased b (ends p (some r) ∷ es) = unreleased false es
unreleased b (loses p ∷ es) = unreleased false es

create-length : (c : HttpClient) → length (create c).0.heap ≡ suc (length c.heap)
unfolding create
create-length c = omega (arith, length-append c.heap (new_connection c.hostname c.port ∷ []))

-- open makes a connection exactly where no id is free, and no id is free after it.
open_connection-length :
    (hostname : Str) (port : ℕ) (b : Bool) (c c' : HttpClient) (p : ℕ)
    → Reachable hostname port c
    → open_connection b c ≡ opened c' p
    → (length c'.heap ≡ (if is_nil c.free then 1 else 0) + length c.heap) × (is_nil c'.free ≡ true)
open_connection-length hostname port b c c' p r e =
    let h = Reachable-IsPool hostname port c r in
    elim h.free_id [
      | inl none_free ↦
          let (q, at_p) =
            take_connection-eq-opened b (length c.heap) p (create c).0 c'
              (sym (open_new b c none_free) ∙ e) in
          let n =
            ap (λ (x : HttpClient). length x.heap) q ∙ taken_length (length c.heap) (create c).0 in
          let k : is_nil c.free ≡ true = ap is_nil none_free in
          let grown = create-length c in
          let gone =
            (taken-IsPool hostname port (length c.heap) (create c).0 (created_in_heap c)
              (create-IsPool hostname port c h none_free)).0 in
          (ground (arith, n, grown, k), ap (λ (x : HttpClient). is_nil x.free) q ∙ ap is_nil gone)
      | inr (is_free, n) ↦
          let (q, at_p) =
            take_connection-eq-opened b 0 p c c'
              (sym (open_first hostname port b c h is_free n) ∙ e) in
          let m = ap (λ (x : HttpClient). length x.heap) q ∙ taken_length 0 c in
          let inside = nonempty_length c.heap n in
          let k : is_nil c.free ≡ false = ap is_nil is_free in
          let gone = (taken-IsPool hostname port 0 c inside h).0 in
          (ground (arith, m, k), ap (λ (x : HttpClient). is_nil x.free) q ∙ ap is_nil gone)
    ]

close-length : (p : ℕ) (c : HttpClient) → length (close p c).heap ≡ length c.heap
unfolding close
close-length p c = length-modify p (set_busy false) c.heap

lost-length : (p : ℕ) (c : HttpClient) → length (ev_connection_closed p c).heap ≡ length c.heap
unfolding ev_connection_closed
lost-length p c = length-modify p reset c.heap

lost-free : (p : ℕ) (c : HttpClient) → is_nil (ev_connection_closed p c).free ≡ false
unfolding ev_connection_closed
lost-free p c = include_not_nil _ c.free

-- However the calls of open, the ends of requests and the closed connections of a client come one
-- after the other, the client makes a new connection for each call of open with no successful end
-- and no closed connection since the call before, and for no other; for the first call where no id
-- is free. The client was used in any way before, and the calls of open return.
pub leads-connections :
    (hostname : Str) (port : ℕ) (target : OnLoad) (es : List Event) (c c' : HttpClient)
    → Reachable hostname port c
    → Leads target c es c'
    → length c'.heap ≡ unreleased (is_nil c.free) es + length c.heap
unfolding ev_http_req_done
leads-connections hostname port target _ c _ h (over _) = omega arith
leads-connections hostname port target _ c c' h (opening b _ c₁ _ p es e t) =
    let (made, none_free) = open_connection-length hostname port b c c₁ p h e in
    let rest =
      leads-connections hostname port target es c₁ c' (steps c c₁ h (Steps.opens b c c₁ p e)) t in
    omega (arith, rest, ap (λ b. unreleased b es) none_free, made)
leads-connections hostname port target _ c c' h (ending _ _ p none es inside t) =
    leads-connections hostname port target es c c' h t
leads-connections hostname port target _ c c' h (ending _ _ p (some r) es inside t) =
    let rest =
      leads-connections hostname port target es (close p c) c' (steps c _ h (closes p c inside))
        t in
    omega (arith, rest, ap (λ b. unreleased b es) (close-free p c), close-length p c)
leads-connections hostname port target _ c c' h (losing _ _ p es inside t) =
    let rest =
      leads-connections hostname port target es (ev_connection_closed p c) c'
        (steps c _ h (peer_closes p c inside)) t in
    omega (arith, rest, ap (λ b. unreleased b es) (lost-free p c), lost-length p c)
