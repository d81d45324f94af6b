-- ===== src/Http/Server.antt =====
-- What the server does with a request: RequestEvent and OnRequest of
-- src/http/server/http-thread.cpp, readBody and onRequestEvent of src/http/server/http-server.cpp.
-- The request that libevent parsed, with the bytes of its input buffer, is an argument.
pub mod Laws
mod Tests
use ch_cpp_utils.Base.{
  ℕ, ◌+◌, ◌-◌, ◌*◌, ◌%◌, ◌^◌, Bool, true, false, not, ◌&&◌, ◌||◌, Option, none, some, List, [], ◌∷◌,
  Str, codes, str_eq, length, is_nil, Assoc, lookup, leb, ltb, nat_beq, if◌then◌else◌,
}
use ch_cpp_utils.Base.Decimal.{is_digit}
use ch_cpp_utils.Http.Method.{Method, post, method_beq}
use ch_cpp_utils.Http.Router.{Route, Router, get_route}
use ch_cpp_utils.Http.Query.{build_header_map, build_query_map}

-- The parts of an evhttp_request that are read.
pub record EvRequest : Type 0 where
  pub method : Method
  pub path : Str
  pub query : Option Str
  pub input_headers : List (Str × Str)
  pub input_buffer : List ℕ

-- class RequestEvent; a body of `none` is a null pointer
pub record RequestEvent : Type 0 where
  pub body : Option (List ℕ)
  pub body_length : ℕ
  pub headers : Assoc Str Str
  pub query : Assoc Str Str
  pub path : Str

-- RequestEvent::RequestEvent
unfoldable pub request_event : EvRequest → RequestEvent
request_event request = record {
  body = none;
  body_length = 0;
  headers = build_header_map request.input_headers;
  query = build_query_map request.query;
  path = request.path;
}

-- RequestEvent::hasBody
unfoldable pub has_body : RequestEvent → Bool
has_body e = elim e.body [ none ↦ false | some bytes ↦ not (nat_beq e.body_length 0) ]

-- The size of an unsigned long.
abbrev pub ulong_bits : ℕ
ulong_bits = 64

-- isspace in the "C" locale
abbrev pub is_space : ℕ → Bool
is_space c = nat_beq c b' ' || (leb 9 c && leb c 13)

abbrev pub skip_spaces : Str → Str
skip_spaces [] = []
skip_spaces (c ∷ s) = if is_space c then skip_spaces s else c ∷ s

-- The digits at the front of a text, behind a number that was read.
unfoldable pub read_digits : ℕ → Str → ℕ
read_digits n [] = n
read_digits n (c ∷ s) = if is_digit c then read_digits (n * 10 + (c - b'0')) s else n

abbrev pub starts_with_digit : Str → Bool
starts_with_digit [] = false
starts_with_digit (c ∷ s) = is_digit c

-- The digits behind the sign: no digit and too large a number are exceptions, and a minus sign
-- wraps the number around.
unfoldable pub unsigned_of : Bool → Str → Option ℕ
unsigned_of negative s =
    if not (starts_with_digit s)
    then none
    else if leb (2 ^ ulong_bits) (read_digits 0 s)
    then none
    else if negative
    then some ((2 ^ ulong_bits - read_digits 0 s) % 2 ^ ulong_bits)
    else some (read_digits 0 s)

unfoldable pub signed_of : Str → Option ℕ
signed_of [] = unsigned_of false []
signed_of (c ∷ s) =
    if nat_beq c b'-'
    then unsigned_of true s
    else if nat_beq c b'+'
    then unsigned_of false s
    else unsigned_of false (c ∷ s)

-- std::stoul; `none` is an exception
unfoldable pub stoul : Str → Option ℕ
stoul s = signed_of (skip_spaces s)

unfoldable pub content_length : RequestEvent → Option ℕ
content_length e = elim (lookup (codes "Content-Length") e.headers) [
  | none ↦ some 0
  | some value ↦ if is_nil value then some 0 else stoul value
]

-- HttpServer::readBody; `none` is an exception. evbuffer_remove gives the whole buffer.
unfoldable pub read_body : EvRequest → RequestEvent → Option RequestEvent
read_body request e =
    if method_beq request.method post
    then (elim (content_length e) [
      | none ↦ none
      | some n ↦
          if not (nat_beq n 0)
          then (if nat_beq (length request.input_buffer) n
              then some (record e { body = some request.input_buffer; body_length = n })
              else some e)
          else some e
    ])
    else some e

-- What becomes of a request: the reply 400, a call of the route's handler, or an exception that
-- leaves the callback.
pub data Reaction : Type 0 where
  bad_request threw : Reaction
  handled : Route → RequestEvent → Reaction

-- HttpServer::onRequestEvent
unfoldable pub on_request_event : EvRequest → RequestEvent → Router → Reaction
on_request_event request e router = elim (get_route request.method request.path router) [
  | none ↦ bad_request
  | some route ↦ elim (read_body request e) [ none ↦ threw | some e' ↦ handled route e' ]
]

-- HttpThread::onEvRequest and OnRequest::fire, with the handler that createThreads sets
unfoldable pub on_ev_request : EvRequest → Router → Reaction
on_ev_request request router = on_request_event request (request_event request) router
