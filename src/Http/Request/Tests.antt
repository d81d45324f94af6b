-- ===== src/Http/Request/Tests.antt =====
-- A request that is sent and served.
use ch_cpp_utils.Base.{◌≡◌, refl, none, some, [], ◌∷◌, codes, str_eq}
use ch_cpp_utils.Base.Decimal.{to_string, decimal}
use ch_cpp_utils.Base.Split.{next_piece, pieces_from, pieces_at}
use ch_cpp_utils.DirTree.Tokens.{tokens, normalize}
use ch_cpp_utils.Http.Method.{post}
use ch_cpp_utils.Http.Router.{Route}
use ch_cpp_utils.Http.Request.{
  HttpRequest, open_request, set_header, full_path, send_length, send_body,
}
use ch_cpp_utils.Http.Server.{EvRequest}

-- What the runs below compute with.
runs : Unit {0}
unfolding open_request set_header full_path send_length send_body to_string decimal tokens pieces_at
    pieces_from normalize next_piece
runs = tt

abbrev upload : Route
upload = record { method = post; path = codes "/up/*"; handler = 1 }

abbrev opened : HttpRequest
opened = record {
  method = post;
  path = codes "/up/a";
  query = codes "n=1";
  fragment = [];
  output_headers = (codes "Connection", codes "keep-alive") ∷ [];
  output_buffer = [];
}

opened_run :
    (open_request post
        (record { path = codes "/up/a"; query = some (codes "n=1"); fragment = none })
      ≡ opened)
    × (full_path opened ≡ codes "/up/a?n=1")
unfolding runs
opened_run = (refl, refl)

abbrev arrived : EvRequest
arrived = record {
  method = post;
  path = codes "/up/a";
  query = some (codes "n=1");
  input_headers =
      (codes "Host", codes "h")
      ∷ (codes "Connection", codes "keep-alive")
      ∷ (codes "Content-Length", codes "2")
      ∷ [];
  input_buffer = codes "ok";
}
