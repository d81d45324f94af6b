-- ===== src/Http/Client/Life.antt =====
-- What is left of a client of src/http/client/http-client.cpp after its destructor.
use ch_cpp_utils.Base.{
  ℕ, zero, suc, ◌≡◌, refl, ap, sym, ◌∙◌, Bool, [], ◌∷◌, ◌++◌, append-nil, Str, is_nil, drop,
  if◌then◌else◌, replicate, total, arith,
}
use ch_cpp_utils.ThreadPool.{ThreadPool, exit, add_job}
use ch_cpp_utils.ThreadPool.Steps
use ch_cpp_utils.ThreadPool.Steps.{is_number, stops}
use ch_cpp_utils.ThreadPool.Shutdown.{shutdown_drains}
use ch_cpp_utils.Http.Threads.Life.{added-add_exits, replicate-ended, dispatches, replicate-shift}
use ch_cpp_utils.Http.Pool.{HttpClient, close_connections}
use ch_cpp_utils.Http.Pool.Steps.{Reachable}
use ch_cpp_utils.Http.Pool.Closing.{close_connections-first}
use ch_cpp_utils.Http.Client.{
  ClientThread, pool_size, with_thread, dispatch, send, sends, end_client,
}

added-sends :
    (n : ℕ) (s : ClientThread) → (sends n s).pool.added ≡ s.pool.added ++ replicate n dispatch
unfolding sends send add_job
added-sends zero s = sym (append-nil s.pool.added)
added-sends (suc n) s = added-sends n (send s) ∙ replicate-shift n dispatch s.pool.added

client-sends : (n : ℕ) (s : ClientThread) → (sends n s).client ≡ s.client
unfolding sends send
client-sends zero s = refl
client-sends (suc n) s = client-sends n (send s)

added-end_client :
    (notifies : ℕ → Bool) (n : ℕ) (c : HttpClient)
    → (end_client notifies (sends n (with_thread c))).0.pool.added
      ≡ replicate n dispatch ++ replicate pool_size exit
unfolding end_client
added-end_client notifies n c =
    added-add_exits pool_size (sends n (with_thread c)).pool
    ∙ ap (λ js. js ++ replicate pool_size exit) (added-sends n (with_thread c))

module _ (hostname : Str) (port : ℕ) (c : HttpClient) (r : Reachable hostname port c)
    (notifies : ℕ → Bool) (n : ℕ) where
  -- The destructor of a client deletes the first connection that the client made, if it made one,
  -- and keeps every other as it was, whether or not libevent calls the close callbacks. When the
  -- thread of its pool has left, the queue is empty and the event loop was run once for each call
  -- of send. The jobs that were added are those of the calls of send and then of the destructor.
  pub end_client_drains :
      (s : ThreadPool)
      → Steps.Reachable pool_size s
      → s.added ≡ (end_client notifies (sends n (with_thread c))).0.pool.added
      → total stops s.workers ≡ pool_size
      → ((end_client notifies (sends n (with_thread c))).1 ≡ (if is_nil c.heap then [] else 0 ∷ []))
        × (drop 1 (end_client notifies (sends n (with_thread c))).0.client.heap ≡ drop 1 c.heap)
        × (s.queue ≡ [])
        × (total (is_number 0) s.finished ≡ n)
  unfolding end_client
  end_client_drains s reached added left =
      let (_, deleted, _, others) = close_connections-first hostname port c r notifies in
      let same = client-sends n (with_thread c) in
      let (empty, ran) =
        shutdown_drains pool_size (replicate n 0) s reached
          (added ∙ added-end_client notifies n c ∙ replicate-ended n pool_size) (omega arith)
          left in
      (
        ap (λ d. (close_connections notifies d).1) same ∙ deleted,
        ap (λ d. drop 1 (close_connections notifies d).0.heap) same ∙ others,
        empty,
        ran 0 ∙ dispatches n,
      )
