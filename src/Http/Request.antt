-- ===== src/Http/Request.antt =====
-- The requests that a client sends: HttpRequest of src/http/client/http-request.cpp. libevent parses
-- the URL, and its parts are an argument.
pub mod Arrival
mod Tests
use ch_cpp_utils.Base.{
  ℕ, Bool, true, false, not, ◌&&◌, Option, none, some, List, [], ◌∷◌, ◌++◌, Str, codes, length,
  nat_beq, if◌then◌else◌,
}
use ch_cpp_utils.Base.Decimal.{to_string}
use ch_cpp_utils.Http.Method.{Method}

-- The parts of an evhttp_uri.
pub record Uri : Type 0 where
  pub path : Str
  pub query : Option Str
  pub fragment : Option Str

-- The members that open, setHeader and send use, with the parts of the evhttp_request.
pub record HttpRequest : Type 0 where
  pub method : Method
  pub path : Str
  pub query : Str
  pub fragment : Str
  pub output_headers : List (Str × Str)
  pub output_buffer : List ℕ

-- What evhttp_make_request is given.
pub record Message : Type 0 where
  pub method : Method
  pub target : Str
  pub headers : List (Str × Str)
  pub body : List ℕ

abbrev pub or_empty : Option Str → Str
or_empty none = []
or_empty (some s) = s

-- HttpRequest::open
unfoldable pub open_request : Method → Uri → HttpRequest
open_request method uri = record {
  method = method;
  path = uri.path;
  query = or_empty uri.query;
  fragment = or_empty uri.fragment;
  output_headers = (codes "Connection", codes "keep-alive") ∷ [];
  output_buffer = [];
}

-- HttpRequest::setHeader
unfoldable pub set_header : Str → Str → HttpRequest → HttpRequest
set_header name value r = record r { output_headers = r.output_headers ++ (name, value) ∷ [] }

unfoldable pub full_path : HttpRequest → Str
full_path r =
    (r.path ++ (if not (nat_beq (length r.query) 0) then codes "?" ++ r.query else []))
    ++ (if not (nat_beq (length r.fragment) 0) then codes "#" ++ r.fragment else [])

-- HttpRequest::send(size_t)
unfoldable pub send_length : ℕ → HttpRequest → Message
send_length content_length r =
    let r' = set_header (codes "Content-Length") (to_string content_length) r in
    record {
      method = r'.method;
      target = full_path r';
      headers = r'.output_headers;
      body = r'.output_buffer;
    }

-- HttpRequest::send(void *, size_t), of a body that is not null
unfoldable pub send_body : List ℕ → HttpRequest → Message
send_body body r =
    let r' =
      if not (nat_beq (length body) 0)
      then record r { output_buffer = r.output_buffer ++ body }
      else r in
    send_length (length body) r'
