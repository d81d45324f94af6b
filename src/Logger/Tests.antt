-- ===== src/Logger/Tests.antt =====
-- Two threads that write at the same time, and the theorems on loggers at this run.
use ch_cpp_utils.Base.{List, [], ◌∷◌, Str, codes, some, ◌≡◌, refl, lookup, emplace, assign}
use ch_cpp_utils.Logger.{
  Logger, Call, value, manipulator, new_logger, first_line, get_thread_entry, write, turn, turns,
  begin_shutdown, end_shutdown,
}
use ch_cpp_utils.Logger.Order.{Runs-Follows}
use ch_cpp_utils.Logger.History.{Runs, starts, writes, reads, Follows, ended, pending}
use ch_cpp_utils.Logger.Shutdown.{destructor_prints_all}

-- What the runs below compute with.
runs : Unit {0}
unfolding first_line get_thread_entry write turn turns begin_shutdown end_shutdown ended pending
    lookup emplace assign
runs = tt

abbrev now : Str
now = codes "Mon\n"

abbrev first : Call
first = value 1 now (codes "a")

abbrev second : Call
second = value 2 now (codes "b")

abbrev line : Call
line = manipulator 1 now (codes "\n") now

abbrev calls : List Call
calls = line ∷ second ∷ first ∷ []

abbrev called : Logger
called = write line (write second (write first new_logger))

called-Runs : Runs calls called
unfolding runs
called-Runs =
    writes line (second ∷ first ∷ []) (write second (write first new_logger))
      (writes second (first ∷ []) (write first new_logger) (writes first [] new_logger starts refl)
        refl)
      refl

ended_run : ended calls ≡ codes "Mon | a\n" ∷ []
unfolding runs
ended_run = refl

-- The logger's thread holds the line.
Runs-Follows_example : Follows calls (turn (turn called))
Runs-Follows_example =
    Runs-Follows calls (turn (turn called))
      (reads calls (turn called) (reads calls called called-Runs))

destructor_prints_all_example :
    (s' : Logger) × (end_shutdown (turns 3 (begin_shutdown called)) ≡ some s')
    × (s'.printed ≡ ended calls)
destructor_prints_all_example = destructor_prints_all calls called called-Runs
