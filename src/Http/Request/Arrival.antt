-- ===== src/Http/Request/Arrival.antt =====
-- A body that a client of this library sends arrives at the handler of a server of this library.
use ch_cpp_utils.Base.{str_eq}
