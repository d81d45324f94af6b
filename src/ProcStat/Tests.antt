-- ===== src/ProcStat/Tests.antt =====
-- A process whose name has parentheses, and the theorems on its line.
use ch_cpp_utils.Base.{
  ◌+◌, ◌*◌, ◌%◌, ◌^◌, ◌<◌, ◌≡◌, ◌↔◌, ◌≢◌, refl, true, false, none, some, List, [], ◌∷◌, ◌++◌, Str,
  codes, All, replicate, length, arith, modify,
}
use ch_cpp_utils.Base.Decimal.{to_string, decimal}
use ch_cpp_utils.Timer.{
  TimerEvent, Timer, set_event, new_timer, create_, create, with_event, restart,
}
use ch_cpp_utils.Timer.Calls.{stopped}
use ch_cpp_utils.Timer.Reached.{starts, steps, creates, Reachable-IsTimer}
use ch_cpp_utils.ThreadPool.{add_job}
use ch_cpp_utils.ProcStat.{
  Proc, ProcStat, numbers, filled, behind_name, stat2proc, new_proc_stat, on_timer_event, get_rss,
}
use ch_cpp_utils.ProcStat.Scan.{span_digits, drop_word, scan_number, sscanf}
use ch_cpp_utils.ProcStat.Printed.{Number, print, kept}
use ch_cpp_utils.ProcStat.Line.{stat_line, stat2proc_of_line, differs}
use ch_cpp_utils.ProcStat.Size.{get_rss_of_line}
use ch_cpp_utils.ProcStat.Ticks.{ticks, on_timer_event-some, IsPolling, ticks_queue}

-- What the runs below compute with.
runs : Unit {0}
unfolding add_job create_ create with_event restart modify filled behind_name stat2proc
    on_timer_event get_rss span_digits drop_word scan_number sscanf print kept stat_line ticks
    to_string decimal
runs = tt

-- 1048577 pages of 4096 bytes are 4 GiB and a page.
abbrev fields : List Number
fields = (true, 1) ∷ (replicate 19 (false, 7) ++ (false, 1048577) ∷ (replicate 23 (false, 9)))

abbrev name : Str
name = codes "a) R (b"

abbrev line : Str
line = stat_line (codes "12") name b'S' fields

line_run : sscanf ch_cpp_utils.ProcStat.format (codes "S -1 7") ≡ b'S' ∷ 4294967295 ∷ 7 ∷ []
unfolding runs
line_run = refl

plain_pid : All (λ c. c ≢ b'(') (codes "12")
plain_pid = (differs b'1' b'(' refl, (differs b'2' b'(' refl, tt))

stat2proc_of_line_example : stat2proc line ≡ some (filled name (b'S' ∷ kept numbers fields))
stat2proc_of_line_example =
    stat2proc_of_line (codes "12") name b'S' fields plain_pid (differs b'S' b')' refl)

abbrev started : ProcStat
started = new_proc_stat 4096

-- The timer event of the object.
abbrev polled : TimerEvent
polled = record {
  tv = record { tv_sec = 1; tv_usec = 0 };
  on_timer_event = some 0;
  this_ = 0;
  event = some 0;
}

abbrev timer_behind : Timer
timer_behind = create_ 0 (set_event none polled) (stopped 0 polled 0 started.timer)

restarted_run : restart 0 started.timer ≡ some timer_behind
unfolding runs
restarted_run = refl

abbrev ticked : ProcStat
ticked = record started {
  timer = timer_behind;
  proc = some (filled name (b'S' ∷ kept numbers fields));
}

get_rss_of_line_example :
    (get_rss ticked ≡ some ((1048577 * 4096) % 2 ^ 32))
    × ((get_rss ticked ≡ some (1048577 * 4096)) ↔ (1048577 * 4096 < 2 ^ 32))
get_rss_of_line_example =
    get_rss_of_line (codes "12") name b'S' 1048577 0 fields started ticked plain_pid
      (differs b'S' b')' refl) refl (omega arith) (omega arith)
      (on_timer_event-some line (filled name (b'S' ∷ kept numbers fields)) 0 timer_behind started
        stat2proc_of_line_example restarted_run)

-- A tick loses 4 GiB of a size of 4 GiB and a page.
wrapped_run : (1048577 * 4096) % 2 ^ 32 ≡ 4096
wrapped_run = refl

started-IsPolling : IsPolling started
unfolding runs
started-IsPolling = (
  Reachable-IsTimer started.timer (
      steps new_timer started.timer starts
        (creates (record { tv_sec = 1; tv_usec = 0 }) (some 0) 0 new_timer)),
  (polled, refl),
)

ticks_queue_example :
    (p' : ProcStat) × (ticks (line ∷ []) started ≡ some p')
    × IsPolling p'
    × (length p'.timer.pool.queue ≡ length started.timer.pool.queue + 2)
ticks_queue_example =
    ticks_queue (line ∷ []) started started-IsPolling
      ((filled name (b'S' ∷ kept numbers fields), stat2proc_of_line_example), tt)
