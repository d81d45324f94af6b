-- ===== src/Tcp/Streams.antt =====
-- The bytes that the user of a TCP server is given.
use ch_cpp_utils.Base.{
  ℕ, zero, suc, ◌%◌, ◌^◌, ◌≡◌, refl, ap, sym, ◌∙◌, Option, none, some, List, [], ◌∷◌, ◌++◌,
  append_assoc, append-nil, length, nat_beq, if◌then◌else◌,
}
use ch_cpp_utils.Tcp.{
  LocalEventCtxt, UserCall, connection, message, disconnect, local_event, Target, TcpServer,
  expired, called,
}
use ch_cpp_utils.Tcp.Listener.{TcpListener}
use ch_cpp_utils.Tcp.Steps.{
  Happens, accepts, listens, begins, ends, reads, fails, adds_event, expires, step, run, new_calls,
  step-Adds,
}

-- The bytes that came at once, and their number as the callback takes it, in 32 bits.
abbrev pub counted : List ℕ → List ℕ × ℕ
counted bytes = (bytes, length bytes % 2 ^ 32)

-- What came on a client's connection.
abbrev pub came : ℕ → Happens → List (List ℕ × ℕ)
came c (accepts answer) = []
came c listens = []
came c (begins w) = []
came c (ends w) = []
came c (reads d bytes) = if nat_beq d c then counted bytes ∷ [] else []
came c (fails d what) = []
came c (adds_event callback this_ tv) = []
came c (expires e) = []

unfoldable pub all_that_came : ℕ → List Happens → List (List ℕ × ℕ)
all_that_came c [] = []
all_that_came c (h ∷ hs) = came c h ++ all_that_came c hs

-- The bytes that the user was given for a client, and the number that came with them.
abbrev told : ℕ → UserCall → List (List ℕ × ℕ)
told c (connection d t) = []
told c (message d bytes n t) = if nat_beq d c then (bytes, n) ∷ [] else []
told c (disconnect d what t) = []
told c (local_event t) = []

unfoldable pub all_told : ℕ → List UserCall → List (List ℕ × ℕ)
all_told c [] = []
all_told c (call ∷ calls) = told c call ++ all_told c calls

all_told-append :
    (c : ℕ) (xs ys : List UserCall) → all_told c (xs ++ ys) ≡ all_told c xs ++ all_told c ys
unfolding all_told
all_told-append c [] ys = refl
all_told-append c (x ∷ xs) ys =
    ap (λ r. told c x ++ r) (all_told-append c xs ys)
    ∙ sym (append_assoc (told c x) (all_told c xs) (all_told c ys))

told-called :
    (c : ℕ) (target : Target) (call : ℕ × ℕ → UserCall)
    → ((t : ℕ × ℕ) → told c (call t) ≡ [])
    → all_told c (called target call) ≡ []
unfolding all_told
told-called c none call h = refl
told-called c (some t) call h = ap (λ r. r ++ []) (h t)

told-expired : (c e : ℕ) (events : List LocalEventCtxt) → all_told c (expired events e) ≡ []
unfolding all_told
told-expired c e [] = refl
told-expired c zero (l ∷ events) = go l.on_local_event
  where
    go :
        (o : Option ℕ)
        → all_told c (elim o as (λ _. List UserCall) [
          | none ↦ []
          | some callback ↦ local_event (callback, l.on_local_event_this) ∷ []
        ])
          ≡ []
    go none = refl
    go (some callback) = refl
told-expired c (suc e) (l ∷ events) = told-expired c e events

told-new_calls :
    (c : ℕ) (h : Happens) (s : TcpServer) (t : ℕ × ℕ)
    → s.on_message ≡ some t
    → all_told c (new_calls h s) ≡ came c h
unfolding all_told
told-new_calls c (accepts none) s t e = refl
told-new_calls c (accepts (some zero)) s t e = refl
told-new_calls c (accepts (some (suc fd))) s t e = told-called c s.on_connection _ (λ _. refl)
told-new_calls c listens s t e = refl
told-new_calls c (begins w) s t e = refl
told-new_calls c (ends w) s t e = refl
told-new_calls c (reads d bytes) s t e =
    ap (λ o. all_told c (called o (message d bytes (length bytes % 2 ^ 32)))) e
    ∙ append-nil (came c (reads d bytes))
told-new_calls c (fails d what) s t e = told-called c s.on_disconnect _ (λ _. refl)
told-new_calls c (adds_event callback this_ tv) s t e = refl
told-new_calls c (expires x) s t e = told-expired c x s.local_events

-- Whatever the order in which connections, bytes, errors and timers come, the user is given for each
-- client what was read from its connection: all the bytes of each read, in their order, and with
-- them their number, modulo 2 ^ 32. The user has set a callback for messages.
pub run-tells :
    (c : ℕ) (hs : List Happens) (l : TcpListener) (s : TcpServer) (t : ℕ × ℕ)
    → s.on_message ≡ some t
    → all_told c (run hs (l, s)).1.calls ≡ all_told c s.calls ++ all_that_came c hs
unfolding run all_that_came
run-tells c [] l s t e = sym (append-nil (all_told c s.calls))
run-tells c (h ∷ hs) l s t e =
    let a = step-Adds h l s in
    let s' = (step h (l, s)).1 in
    run-tells c hs (step h (l, s)).0 s' t (a.on_message ∙ e)
    ∙ ap (λ r. r ++ all_that_came c hs)
        (ap (all_told c) a.calls
          ∙ all_told-append c s.calls (new_calls h s)
          ∙ ap (λ r. all_told c s.calls ++ r) (told-new_calls c h s t e))
    ∙ append_assoc (all_told c s.calls) (came c h) (all_that_came c hs)
