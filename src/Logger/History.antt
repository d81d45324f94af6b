-- ===== src/Logger/History.antt =====
-- What a logger prints, from the history of the calls alone: no map, no queue and no reader.
use ch_cpp_utils.Base.{
  ℕ, Bool, true, false, Option, none, some, List, [], ◌∷◌, ◌++◌, Str, nat_eq, nat_beq, lookup,
  if◌then◌else◌, ◌≡◌, Assoc,
}
use ch_cpp_utils.Logger.{
  Reader, testing, inside, left, holding, Logger, Call, value, manipulator, new_logger, line_start,
  write, turn, begin_shutdown, end_shutdown,
}

-- What a thread has written since its last line ended, the newest call first: the date, taken when
-- the line before ended or at the first call, and the values.
unfoldable pub pending : ℕ → List Call → Option Str
pending t [] = none
pending t (value u ctime bytes ∷ h) =
    let rest = pending t h in
    if nat_beq u t
    then (elim rest [ none ↦ some (line_start ctime ++ bytes) | some text ↦ some (text ++ bytes) ])
    else rest
pending t (manipulator u ctime bytes next ∷ h) =
    let rest = pending t h in if nat_beq u t then some (line_start next) else rest

-- What a call of `t` finds in its stream.
abbrev pub begun : ℕ → Str → List Call → Str
begun t ctime h = elim (pending t h) [ none ↦ line_start ctime | some text ↦ text ]

-- The lines that were ended, in the order in which they were.
unfoldable pub ended : List Call → List Str
ended [] = []
ended (value u ctime bytes ∷ h) = ended h
ended (manipulator u ctime bytes next ∷ h) = ended h ++ (begun u ctime h ++ bytes) ∷ []

-- A logger that was called and whose thread took turns, in any order. The calls are those before
-- the destructor, the newest first.
pub data Runs : List Call → Logger → Type 0 where
  starts : Runs [] new_logger
  writes :
      (c : Call) (h : List Call) (s : Logger)
      → Runs h s
      → s.shutdown ≡ false
      → Runs (c ∷ h) (write c s)
  late : (c : Call) (h : List Call) (s : Logger) → Runs h s → s.shutdown ≡ true → Runs h (write c s)
  reads : (h : List Call) (s : Logger) → Runs h s → Runs h (turn s)
  ends : (h : List Call) (s : Logger) → Runs h s → Runs h (begin_shutdown s)
  frees : (h : List Call) (s s' : Logger) → Runs h s → end_shutdown s ≡ some s' → Runs h s'

abbrev pub held : Reader → List Str
held testing = []
held inside = []
held left = []
held (holding line) = line ∷ []

-- The lines that are printed, held and queued are the lines that were ended, and the stream of a
-- thread holds what the thread has written since.
pub record Follows (h : List Call) (s : Logger) : Type 0 where
  pub lines : s.printed ++ (held s.reader ++ s.log_queue) ≡ ended h
  pub streams : s.shutdown ≡ false → (t : ℕ) → lookup t s.log_map ≡ pending t h
  pub leaves : s.reader ≡ left → s.shutdown ≡ true

-- A logger with its members written out, for the theorems that go through its states.
abbrev pub state : (b : Bool) (r : Reader) (q : List Str) (m : Assoc ℕ Str) (p : List Str) → Logger
state b r q m p = record { log_queue = q; log_map = m; shutdown = b; reader = r; printed = p }
