-- ===== src/Logger.antt =====
-- class Logger of src/ch-cpp-utils/logger.hpp: the stream of each thread, the queue of the lines,
-- and the thread that prints them. What a thread does under the logger's mutex is one step.
pub mod History
pub mod Streams
pub mod Order
pub mod Shutdown
mod Tests
use ch_cpp_utils.Base.{
  ℕ, zero, suc, Bool, true, false, not, Option, none, some, List, [], ◌∷◌, ◌++◌, Str, codes, nat_eq,
  nat_beq, Assoc, lookup, emplace, assign, if◌then◌else◌,
}

-- Where the thread of the logger stands in threadFunc_: at the test of `shutdown`, behind it, with
-- a line that it took off the queue, or behind the loop and its notification.
pub data Reader : Type 0 where
  testing inside left : Reader
  holding : Str → Reader

-- The members of a logger, and what it has written to std::cout.
pub record Logger : Type 0 where
  pub log_queue : List Str
  pub log_map : Assoc ℕ Str
  pub shutdown : Bool
  pub reader : Reader
  pub printed : List Str

-- A value or a manipulator that a thread gives to operator<<: the bytes that iostream writes for
-- it, and what std::ctime answers, in getThreadEntry and behind the line.
pub data Call : Type 0 where
  value : (thread : ℕ) (ctime bytes : Str) → Call
  manipulator : (thread : ℕ) (ctime bytes next : Str) → Call

-- Logger::Logger, which waits until its thread is at its loop
abbrev pub new_logger : Logger
new_logger = record {
  log_queue = [];
  log_map = [];
  shutdown = false;
  reader = testing;
  printed = [];
}

-- ctime.erase(ctime.find('\n')); the text of std::ctime ends with a line feed.
unfoldable pub first_line : Str → Str
first_line [] = []
first_line (c ∷ s) = let rest = first_line s in if nat_beq c b'\n' then [] else c ∷ rest

abbrev pub line_start : Str → Str
line_start ctime = first_line ctime ++ codes " | "

-- Logger::clear
abbrev pub clear : ℕ → Str → Assoc ℕ Str → Assoc ℕ Str
clear thread ctime m = assign thread (line_start ctime) m

-- Logger::getThreadEntry, which answers the map and the text of the thread's stream
unfoldable pub get_thread_entry : ℕ → Str → Assoc ℕ Str → Assoc ℕ Str × Str
get_thread_entry thread ctime m = elim (lookup thread m) [
  | some text ↦ (m, text)
  | none ↦ (clear thread ctime (emplace thread [] m), line_start ctime)
]

-- Logger::operator<<, of a value and of a manipulator
unfoldable pub write : Call → Logger → Logger
write (value thread ctime bytes) s =
    if s.shutdown
    then s
    else let (m, text) = get_thread_entry thread ctime s.log_map in
      record s { log_map = assign thread (text ++ bytes) m }
write (manipulator thread ctime bytes next) s =
    if s.shutdown
    then s
    else let (m, text) = get_thread_entry thread ctime s.log_map in
      record s {
        log_map = clear thread next (assign thread (text ++ bytes) m);
        log_queue = s.log_queue ++ (text ++ bytes) ∷ [];
      }

-- Logger::threadFunc_: the test of the loop, a line off the queue or a wait, and its print
unfoldable pub turn : Logger → Logger
turn s = elim s.reader [
  | testing ↦ record s { reader = if s.shutdown then left else inside }
  | inside ↦ elim s.log_queue [
    | [] ↦ record s { reader = testing }
    | line ∷ lines ↦ record s { reader = holding line; log_queue = lines }
  ]
  | holding line ↦ record s { reader = testing; printed = s.printed ++ line ∷ [] }
  | left ↦ s
]

unfoldable pub turns : ℕ → Logger → Logger
turns zero s = s
turns (suc n) s = turns n (turn s)

-- Logger::~Logger before it waits
unfoldable pub begin_shutdown : Logger → Logger
begin_shutdown s = record s { shutdown = true }

-- Logger::~Logger behind its wait, which ends when the thread has left: the streams are freed and
-- what is left in the queue is printed.
unfoldable pub end_shutdown : Logger → Option Logger
end_shutdown s = elim s.reader [
  | left ↦ some (record s { log_map = []; log_queue = []; printed = s.printed ++ s.log_queue })
  | _ ↦ none
]
