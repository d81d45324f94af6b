-- ===== src/Http/Exchange.antt =====
-- The end of a request: evHttpReqDone of src/http/client/http-request.cpp, with the response that it
-- builds and the callback that it fires. What libevent answers is an argument.
pub mod Connections
mod Tests
use ch_cpp_utils.Base.{
  ℕ, ◌%◌, ◌^◌, Bool, true, false, Option, none, some, List, [], ◌∷◌, Str, Assoc,
}
use ch_cpp_utils.Http.Pool.{HttpClient, close, opened, fault, locked, open_connection}
use ch_cpp_utils.Http.Response.{response_headers}

-- What evHttpReqDone reads of an evhttp_request.
pub record EvResponse : Type 0 where
  pub response_code : ℕ
  pub response_code_line : Option Str
  pub input_headers : List (Str × Str)

-- class HttpResponse; its request is the one that is done, and nothing sets its MIME type
pub record HttpResponse : Type 0 where
  pub response_code : ℕ
  pub response_text : Str
  pub headers : Assoc Str Str

-- class HttpRequest::OnLoad
pub record OnLoad : Type 0 where
  pub onload : Option ℕ
  pub this_ : ℕ

-- A call of the client's callback: the callback, the response and the client's pointer
pub record LoadCall : Type 0 where
  pub onload : ℕ
  pub response : HttpResponse
  pub this_ : ℕ

-- HttpRequest::onLoad(...).bind(...)
abbrev pub on_load : ℕ → ℕ → OnLoad
on_load onload this_ = record { onload = some onload; this_ = this_ }

-- HttpRequest::OnLoad::fire
unfoldable pub fire : HttpResponse → OnLoad → Option LoadCall
fire response target = elim target.onload [
  | none ↦ none
  | some onload ↦ some (record { onload = onload; response = response; this_ = target.this_ })
]

abbrev pub failed_response : HttpResponse
failed_response = record { response_code = 0; response_text = []; headers = [] }

-- The response of evHttpReqDone; the code is stored in 32 bits
unfoldable pub build_response : EvResponse → HttpResponse
build_response r = record {
  response_code = r.response_code % 2 ^ 32;
  response_text = elim r.response_code_line [ none ↦ [] | some line ↦ line ];
  headers = response_headers r.input_headers;
}

-- HttpRequest::evHttpReqDone, of a request on the connection `p`: the client behind it and the
-- callback. libevent gives no request where it failed.
unfoldable pub ev_http_req_done :
    Option EvResponse → OnLoad → ℕ → HttpClient → HttpClient × Option LoadCall
ev_http_req_done none target p client = (client, fire failed_response target)
ev_http_req_done (some r) target p client = (close p client, fire (build_response r) target)
