-- ===== src/Tcp/Connections.antt =====
-- Which connections a TCP server has and tells its user of.
use ch_cpp_utils.Base.{
  ℕ, zero, suc, ◌+◌, ◌≡◌, refl, ap, sym, ◌∙◌, Option, none, some, List, [], ◌∷◌, ◌++◌, append_assoc,
  append-nil, length, length-append, arith, suc-add,
}
use ch_cpp_utils.Tcp.{
  ClientCtxt, LocalEventCtxt, UserCall, connection, message, disconnect, local_event, Target,
  TcpServer, expired, called,
}
use ch_cpp_utils.Tcp.Listener.{TcpListener}
use ch_cpp_utils.Tcp.Steps.{
  Happens, accepts, listens, begins, ends, reads, fails, adds_event, expires, step, run, handed_on,
  all_handed_on, new_calls, client_fds, Adds, step-Adds,
}

-- The clients whose connection the user was told of.
unfoldable pub announced : List UserCall → List ℕ
announced [] = []
announced (connection d t ∷ calls) = d ∷ announced calls
announced (message d bytes n t ∷ calls) = announced calls
announced (disconnect d what t ∷ calls) = announced calls
announced (local_event t ∷ calls) = announced calls

-- The numbers from `a` on.
abbrev pub range : ℕ → ℕ → List ℕ
range a zero = []
range a (suc n) = a ∷ range (suc a) n

zero_add : (n : ℕ) → 0 + n ≡ n
zero_add n = omega arith

add_zero : (n : ℕ) → n ≡ n + 0
add_zero n = omega arith

shift_add : (m n : ℕ) → suc m + n ≡ m + suc n
shift_add m n = omega arith

pub range-add : (a m n : ℕ) → range a (m + n) ≡ range a m ++ range (a + m) n
range-add a zero n = ap (range a) (zero_add n) ∙ ap (λ k. range k n) (add_zero a)
range-add a (suc m) n =
    ap (range a) (suc-add m n)
    ∙ ap (λ r. a ∷ r)
        (range-add (suc a) m n ∙ ap (λ k. range (suc a) m ++ range k n) (shift_add a m))

announced-append : (xs ys : List UserCall) → announced (xs ++ ys) ≡ announced xs ++ announced ys
unfolding announced
announced-append [] ys = refl
announced-append (connection d t ∷ xs) ys = ap (λ r. d ∷ r) (announced-append xs ys)
announced-append (message d bytes n t ∷ xs) ys = announced-append xs ys
announced-append (disconnect d what t ∷ xs) ys = announced-append xs ys
announced-append (local_event t ∷ xs) ys = announced-append xs ys

no_connection :
    (target : Target) (call : ℕ × ℕ → UserCall)
    → ((t : ℕ × ℕ) → announced (call t ∷ []) ≡ [])
    → announced (called target call) ≡ []
unfolding announced
no_connection none call h = refl
no_connection (some t) call h = h t

announced-expired : (e : ℕ) (events : List LocalEventCtxt) → announced (expired events e) ≡ []
unfolding announced
announced-expired e [] = refl
announced-expired zero (l ∷ events) = go l.on_local_event
  where
    go :
        (o : Option ℕ)
        → announced (elim o as (λ _. List UserCall) [
          | none ↦ []
          | some callback ↦ local_event (callback, l.on_local_event_this) ∷ []
        ])
          ≡ []
    go none = refl
    go (some callback) = refl
announced-expired (suc e) (l ∷ events) = announced-expired e events

announced-new_calls :
    (h : Happens) (s : TcpServer) (t : ℕ × ℕ)
    → s.on_connection ≡ some t
    → announced (new_calls h s) ≡ range (length s.clients) (length (handed_on h))
unfolding announced
announced-new_calls (accepts none) s t e = refl
announced-new_calls (accepts (some zero)) s t e = refl
announced-new_calls (accepts (some (suc fd))) s t e =
    ap (λ o. announced (called o (connection (length s.clients)))) e
announced-new_calls listens s t e = refl
announced-new_calls (begins w) s t e = refl
announced-new_calls (ends w) s t e = refl
announced-new_calls (reads d bytes) s t e = no_connection s.on_message _ (λ _. refl)
announced-new_calls (fails d what) s t e = no_connection s.on_disconnect _ (λ _. refl)
announced-new_calls (adds_event callback this_ tv) s t e = refl
announced-new_calls (expires x) s t e = announced-expired x s.local_events

length-fds : (cs : List ClientCtxt) → length (client_fds cs) ≡ length cs
length-fds [] = refl
length-fds (c ∷ cs) = ap suc (length-fds cs)

clients_grow :
    (h : Happens) (s s' : TcpServer)
    → Adds h s s'
    → length s'.clients ≡ length s.clients + length (handed_on h)
clients_grow h s s' a =
    sym (length-fds s'.clients)
    ∙ ap length a.fds
    ∙ length-append (client_fds s.clients) (handed_on h)
    ∙ ap (λ n. n + length (handed_on h)) (length-fds s.clients)

-- Whatever the order in which connections, bytes, errors and timers come, a server has one client for each
-- connection that was accepted with a descriptor above 0, in their order, and its user is told of
-- each of them once, in that order. The user has set a callback for connections.
pub run-announces :
    (hs : List Happens) (l : TcpListener) (s : TcpServer) (t : ℕ × ℕ)
    → s.on_connection ≡ some t
    → (client_fds (run hs (l, s)).1.clients ≡ client_fds s.clients ++ all_handed_on hs)
      × (announced (run hs (l, s)).1.calls
          ≡ announced s.calls ++ range (length s.clients) (length (all_handed_on hs)))
unfolding run all_handed_on
run-announces [] l s t e =
    (sym (append-nil (client_fds s.clients)), sym (append-nil (announced s.calls)))
run-announces (h ∷ hs) l s t e =
    let a = step-Adds h l s in
    let s' = (step h (l, s)).1 in
    let (fds, told) = run-announces hs (step h (l, s)).0 s' t (a.on_connection ∙ e) in
    let here = handed_on h in
    let later = all_handed_on hs in
    (
      fds ∙ ap (λ r. r ++ later) a.fds ∙ append_assoc (client_fds s.clients) here later,
      told
          ∙ ap (λ r. r ++ range (length s'.clients) (length later))
              (ap announced a.calls
                ∙ announced-append s.calls (new_calls h s)
                ∙ ap (λ r. announced s.calls ++ r) (announced-new_calls h s t e))
          ∙ append_assoc (announced s.calls) (range (length s.clients) (length here))
              (range (length s'.clients) (length later))
          ∙ ap (λ r. announced s.calls ++ r)
              (ap (λ n. range (length s.clients) (length here) ++ range n (length later))
                  (clients_grow h s s' a)
                ∙ sym (range-add (length s.clients) (length here) (length later))
                ∙ ap (range (length s.clients)) (sym (length-append here later))),
    )
