-- ===== src/Http/Client.antt =====
-- A client with its thread: the pool, send and the destructor of HttpClientImpl in
-- src/http/client/http-client.cpp. A run of the event loop of libevent is a job.
pub mod Life
mod Tests
use ch_cpp_utils.Base.{ℕ, zero, suc, Bool, List, Str}
use ch_cpp_utils.ThreadPool.{Job, routine, ThreadPool, new_pool, add_job, add_exits}
use ch_cpp_utils.Http.Pool.{HttpClient, new_client, close_connections}

-- class HttpClientImpl, with its pool
pub record ClientThread : Type 0 where
  pub client : HttpClient
  pub pool : ThreadPool

-- The threads of a client's pool.
abbrev pub pool_size : ℕ
pool_size = 1

-- HttpClientImpl::HttpClientImpl, with the connections of `client`
abbrev pub with_thread : HttpClient → ClientThread
with_thread client = record { client = client; pool = new_pool pool_size }

-- HttpClientImpl::_dispatch, which runs the event loop
abbrev pub dispatch : Job
dispatch = routine 0

-- HttpClientImpl::send
unfoldable pub send : ClientThread → ClientThread
send s = record s { pool = add_job dispatch s.pool }

-- Calls of send.
unfoldable pub sends : ℕ → ClientThread → ClientThread
sends zero s = s
sends (suc n) s = sends n (send s)

-- HttpClientImpl::~HttpClientImpl: the connections that closeConnctions deletes, and then the exit
-- job of the pool's destructor
unfoldable pub end_client : (ℕ → Bool) → ClientThread → ClientThread × List ℕ
end_client notifies s =
    let (client, deleted) = close_connections notifies s.client in
    (record { client = client; pool = add_exits pool_size s.pool }, deleted)
