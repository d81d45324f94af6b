-- ===== src/Utils/Files.antt =====
-- fileExpired, fileExists, the replies and daemonizeProcess of src/utils.cpp. What the kernel and
-- libevent answer is an argument.
use ch_cpp_utils.Base.{
  ℕ, suc, ◌+◌, ◌-◌, ◌*◌, ◌/◌, ◌^◌, ◌≤◌, ◌++◌, not, ◌≡◌, ◌↔◌, Bool, true, false, Option, none, some,
  Str, codes, ltb, if◌then◌else◌, arith,
}

-- Nanoseconds in a second
abbrev pub billion : ℕ
billion = 10 ^ 9

-- fileExists, given whether stat succeeds
abbrev pub file_exists : Bool → Bool
file_exists stat = stat

-- fileExpired, given the time of modification that stat answers, if it does, and the time now, in
-- nanoseconds. The seconds are cut towards 0, and a file from the future has less than none.
unfoldable pub file_expired : Option ℕ → ℕ → ℕ → Bool
file_expired none now expires_in = false
file_expired (some modified) now expires_in = ltb expires_in ((now - modified) / billion)

-- A reply of libevent: its status and its body
pub record Reply : Type 0 where
  pub status : ℕ
  pub body : Str

abbrev page : Str → Str
page title = codes "<html><body><center><h1>" ++ (title ++ codes "</h1></center></body></html>")

-- A reply that is sent if the request has an output buffer.
abbrev reply_if : Bool → ℕ → Str → Option Reply
reply_if buffer status title =
    if buffer then some (record { status = status; body = page title }) else none

-- send400BadRequest, send404NotFound, send500InternalServerError and send200OK
unfoldable pub send_400_bad_request : Bool → Option Reply
send_400_bad_request buffer = reply_if buffer 400 (codes "Bad Request")

unfoldable pub send_404_not_found : Bool → Option Reply
send_404_not_found buffer = reply_if buffer 404 (codes "Not Found")

unfoldable pub send_500_internal_server_error : Bool → Option Reply
send_500_internal_server_error buffer = reply_if buffer 500 (codes "Internal Server Error")

unfoldable pub send_200_ok : Bool → Option Reply
send_200_ok buffer = reply_if buffer 200 (codes "OK")

-- What fork answers: an error, a child to its parent, and 0 to the child.
pub data Fork : Type 0 where
  fork_failed parent child : Fork

-- What the other calls of daemonizeProcess answer: whether each succeeds
pub record Answers : Type 0 where
  pub fork : Fork
  pub setsid : Bool
  pub chdir : Bool
  pub close_stdin : Bool
  pub close_stdout : Bool
  pub close_stderr : Bool

-- How daemonizeProcess ends: it exits, or it returns -1 or 0.
pub data Daemonized : Type 0 where
  exits returns_error returns_zero : Daemonized

-- daemonizeProcess
unfoldable pub daemonize_process : Answers → Daemonized
daemonize_process a = elim a.fork [
  | fork_failed ↦ returns_error
  | parent ↦ exits
  | child ↦
      if not a.setsid
      then returns_error
      else if not a.chdir
      then returns_error
      else if not a.close_stdin
      then returns_error
      else if not a.close_stdout
      then returns_error
      else if not a.close_stderr
      then returns_error
      else returns_zero
]

-- A file that stat finds is expired exactly if it was modified a whole second more than the time of
-- its expiry ago, or earlier.
pub file_expired_iff :
    (modified now expires_in : ℕ)
    → (file_expired (some modified) now expires_in ≡ true)
      ↔ (modified + suc expires_in * billion ≤ now)
unfolding file_expired
file_expired_iff modified now expires_in = ground arith

-- daemonizeProcess returns 0 exactly in a child whose calls all succeed.
pub daemonize_process_iff :
    (a : Answers)
    → (daemonize_process a ≡ returns_zero) ↔ (
        (a.fork ≡ child)
        × (a.setsid ≡ true)
        × (a.chdir ≡ true)
        × (a.close_stdin ≡ true)
        × (a.close_stdout ≡ true)
        × (a.close_stderr ≡ true))
unfolding daemonize_process
daemonize_process_iff a = ground arith
