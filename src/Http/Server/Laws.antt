-- ===== src/Http/Server/Laws.antt =====
-- Which requests reach a handler, and which body it is given.
use ch_cpp_utils.Base.{
  ℕ, suc, ◌+◌, ◌-◌, ◌*◌, ◌^◌, ◌≡◌, refl, ◌∙◌, true, false, not, ◌&&◌, none, some, List, [], ◌∷◌,
  Str, codes, str_eq, length, nat_beq, nat_beq_iff, if◌then◌else◌, arith, All, Option-cases, inl,
  inr,
}
use ch_cpp_utils.Base.Decimal.{is_digit, number}
use ch_cpp_utils.DirTree.Tokens.{tokens}
use ch_cpp_utils.Http.Method.{post, method_beq, method_beq_iff}
use ch_cpp_utils.Http.Router.{Route, Router, empty, get_route}
use ch_cpp_utils.Http.Router.Table.{add_all, routed}
use ch_cpp_utils.Http.Router.Routing.{get_route-eq-routed}
use ch_cpp_utils.Http.Query.Laws.{first_value, build_header_map_lem}
use ch_cpp_utils.Http.Server.{
  EvRequest, RequestEvent, request_event, has_body, read_digits, content_length, read_body, handled,
  on_request_event, on_ev_request,
}

no_body : (request : EvRequest) → has_body (request_event request) ≡ false
unfolding has_body request_event
no_body request = refl

read_body_sound :
    (request : EvRequest) (e : RequestEvent)
    → read_body request (request_event request) ≡ some e
    → has_body e ≡ true
    → (request.method ≡ post)
      × (e.body ≡ some request.input_buffer)
      × (e.body_length ≡ length request.input_buffer)
unfolding read_body
read_body_sound request e h b = ground (
  arith,
  method_beq_iff request.method post,
  nat_beq_iff (length request.input_buffer),
  no_body request,
)

-- A handler that is given a body serves a POST, and the body is the whole input buffer, with its
-- length.
pub body_sound :
    (request : EvRequest) (router : Router) (route : Route) (e : RequestEvent)
    → on_ev_request request router ≡ handled route e
    → has_body e ≡ true
    → (request.method ≡ post)
      × (e.body ≡ some request.input_buffer)
      × (e.body_length ≡ length request.input_buffer)
unfolding on_ev_request on_request_event
body_sound request router route e h b =
    elim (Option-cases (get_route request.method request.path router)) [
      | inl none_there ↦ ground arith
      | inr (r, there) ↦ elim (Option-cases (read_body request (request_event request))) [
        | inl thrown ↦ ground arith
        | inr (e', read) ↦ ground (arith, read_body_sound request e')
      ]
    ]

positional : (n d x r : ℕ) → (n * 10 + d) * x + r ≡ n * (10 * x) + (d * x + r)
positional n d x r = grind arith

ten_pow : (k : ℕ) → 10 ^ suc k ≡ 10 * 10 ^ k
ten_pow k = grind arith

pub read_digits-eq-number :
    (n : ℕ) (s : Str)
    → All (λ c. is_digit c ≡ true) s
    → read_digits n s ≡ n * 10 ^ length s + number s
unfolding read_digits
read_digits-eq-number n [] h = grind arith
read_digits-eq-number n (c ∷ s) (h, hs) =
    rw (h, ten_pow (length s))
      (read_digits-eq-number (n * 10 + (c - b'0')) s hs
        ∙ positional n (c - b'0') (10 ^ length s) (number s))

module _ (request : EvRequest) (ds : Str) where
  -- The event that a handler is given.
  abbrev pub served : RequestEvent
  served =
      if method_beq request.method post
        && not (nat_beq (number ds) 0)
        && nat_beq (length request.input_buffer) (number ds)
      then record (request_event request) {
        body = some request.input_buffer;
        body_length = number ds;
      }
      else request_event request

-- A POST with no header spelled exactly "Content-Length" reaches the handler of its route with no
-- body, whatever other spellings its headers have and whatever is in the input buffer.
pub other_spelling_no_body :
    (routes : List Route) (route : Route) (request : EvRequest)
    → request.method ≡ post
    → first_value (codes "Content-Length") request.input_headers ≡ none
    → routed post (tokens request.path) routes ≡ some route
    → on_ev_request request (add_all routes empty) ≡ handled route (request_event request)
unfolding on_ev_request on_request_event read_body content_length request_event
other_spelling_no_body routes route request m absent r = ground (
  arith,
  get_route-eq-routed request.method request.path routes,
  build_header_map_lem (codes "Content-Length") request.input_headers,
)
