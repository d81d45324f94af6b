-- ===== src/ProcStat.antt =====
-- class ProcStat of src/proc-stat.cpp: the line of /proc/<pid>/stat, which each tick of a timer reads
-- again, and the resident size in bytes. The line that is read is an argument.
pub mod Scan
pub mod Printed
pub mod Line
pub mod Size
pub mod Ticks
mod Tests
use ch_cpp_utils.Base.{
  ℕ, zero, suc, ◌+◌, ◌-◌, ◌*◌, ◌%◌, ◌^◌, Bool, Option, none, some, List, [], ◌∷◌, ◌++◌, Str, codes,
  index_of, rfind, take, drop, length, get_elem?, leb, nat_beq, is_nil, replicate, if◌then◌else◌,
}
use ch_cpp_utils.Timer.{Timer, new_timer, create, restart}
use ch_cpp_utils.ProcStat.Scan.{Directive, character, number_of, skip_number, skip_word, sscanf}

-- The members of struct proc_t that stat2proc writes, each as its bits.
pub record Proc : Type 0 where
  pub cmd : Str
  pub state : ℕ
  pub ppid : ℕ
  pub pgrp : ℕ
  pub session : ℕ
  pub tty : ℕ
  pub tpgid : ℕ
  pub flags : ℕ
  pub min_flt : ℕ
  pub cmin_flt : ℕ
  pub maj_flt : ℕ
  pub cmaj_flt : ℕ
  pub utime : ℕ
  pub stime : ℕ
  pub cutime : ℕ
  pub cstime : ℕ
  pub priority : ℕ
  pub nice : ℕ
  pub nlwp : ℕ
  pub alarm : ℕ
  pub start_time : ℕ
  pub vsize : ℕ
  pub rss : ℕ
  pub rss_rlim : ℕ
  pub start_code : ℕ
  pub end_code : ℕ
  pub start_stack : ℕ
  pub kstk_esp : ℕ
  pub kstk_eip : ℕ
  pub wchan : ℕ
  pub exit_signal : ℕ
  pub processor : ℕ
  pub rtprio : ℕ
  pub sched : ℕ

-- The format of stat2proc, from the state on.
abbrev pub numbers : List Directive
numbers =
    replicate 5 (number_of 32)
    ++ (replicate 11 (number_of 64)
        ++ (number_of 32 ∷ replicate 10 (number_of 64)
            ++ (replicate 4 skip_word
                ++ (number_of 64
                    ∷ skip_number
                    ∷ skip_number
                    ∷ number_of 32
                    ∷ number_of 32
                    ∷ number_of 64
                    ∷ number_of 64
                    ∷ []))))

abbrev pub format : List Directive
format = character ∷ numbers

-- The n-th value that sscanf stores, or what is there before.
abbrev pub stored_or : ℕ → ℕ → List ℕ → ℕ
stored_or old n values = elim (get_elem? values n) [ none ↦ old | some v ↦ v ]

abbrev pub cmd_size : ℕ
cmd_size = 16

-- The result of stat2proc on zeroed memory, for the text between the parentheses and the values that
-- sscanf stores.
unfoldable pub filled : Str → List ℕ → Proc
filled name values =
    let at : ℕ → ℕ = λ n. stored_or 0 n values in
    record {
      cmd = take (if leb cmd_size (length name) then cmd_size - 1 else length name) name;
      state = at 0;
      ppid = at 1;
      pgrp = at 2;
      session = at 3;
      tty = at 4;
      tpgid = at 5;
      flags = at 6;
      min_flt = at 7;
      cmin_flt = at 8;
      maj_flt = at 9;
      cmaj_flt = at 10;
      utime = at 11;
      stime = at 12;
      cutime = at 13;
      cstime = at 14;
      priority = at 15;
      nice = at 16;
      nlwp = if nat_beq (at 17) 0 then 1 else at 17;
      alarm = at 18;
      start_time = at 19;
      vsize = at 20;
      rss = at 21;
      rss_rlim = at 22;
      start_code = at 23;
      end_code = at 24;
      start_stack = at 25;
      kstk_esp = at 26;
      kstk_eip = at 27;
      wchan = at 28;
      exit_signal = at 29;
      processor = at 30;
      rtprio = stored_or (2 ^ 64 - 1) 31 values;
      sched = stored_or (2 ^ 64 - 1) 32 values;
    }

-- The text behind the first parenthesis, whose last one is at `num`.
unfoldable pub behind_name : Str → ℕ → Option Proc
behind_name s num =
    if is_nil (drop (suc num) s)
    then none
    else some (filled (take num s) (sscanf format (drop (num + 2) s)))

-- ProcStat::stat2proc, of a text without its terminator; `none` reads through a null pointer, or
-- behind the terminator
unfoldable pub stat2proc : Str → Option Proc
stat2proc line = elim (index_of b'(' line) [
  | none ↦ none
  | some i ↦ elim (rfind (drop (suc i) line) b')') [
    | none ↦ none
    | some num ↦ behind_name (drop (suc i) line) num
  ]
]

-- class ProcStat; `proc` is `none` until the first tick has written it
pub record ProcStat : Type 0 where
  pub timer : Timer
  pub timer_event : ℕ
  pub page_size : ℕ
  pub proc : Option Proc

-- ProcStat::ProcStat, whose callback and object have the numbers 0
abbrev pub new_proc_stat : ℕ → ProcStat
new_proc_stat page_size =
    let (timer, i) = create (record { tv_sec = 1; tv_usec = 0 }) (some 0) 0 new_timer in
    record { timer = timer; timer_event = i; page_size = page_size; proc = none }

-- ProcStat::onTimerEvent, given the text of the file; `none` is where stat2proc or restart reads what
-- is not there
unfoldable pub on_timer_event : Str → ℕ → ProcStat → Option ProcStat
on_timer_event line event p = elim (stat2proc line) [
  | none ↦ none
  | some proc ↦ elim (restart event p.timer) [
    | none ↦ none
    | some timer ↦ some (record p { timer = timer; proc = some proc })
  ]
]

-- ProcStat::getRSS, a product of longs that is returned in 32 bits; `none` is a read of memory that
-- is not written
unfoldable pub get_rss : ProcStat → Option ℕ
get_rss p = elim p.proc [ none ↦ none | some proc ↦ some ((proc.rss * p.page_size) % 2 ^ 32) ]
