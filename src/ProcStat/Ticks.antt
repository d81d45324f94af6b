-- ===== src/ProcStat/Ticks.antt =====
-- What the ticks of the timer leave in the queue of its pool.
use ch_cpp_utils.Base.{
  ℕ, ◌+◌, ◌≡◌, refl, Option, none, some, List, [], ◌∷◌, ◌++◌, Str, arith, All, get_elem?, modify,
  get_elem?-modify, length, length-append, nat_beq_iff,
}
use ch_cpp_utils.ThreadPool.{add_job, routine}
use ch_cpp_utils.Timer.{TimerEvent, Timer, create_, restart, set_event}
use ch_cpp_utils.Timer.Ownership.{IsTimer}
use ch_cpp_utils.Timer.Calls.{restart-IsTimer, with_event-some, stopped}
use ch_cpp_utils.ProcStat.{Proc, ProcStat, stat2proc, on_timer_event}

-- The ticks on these texts, one after the other.
unfoldable pub ticks : List Str → ProcStat → Option ProcStat
ticks [] p = some p
ticks (line ∷ lines) p = elim (on_timer_event line p.timer_event p) [
  | none ↦ none
  | some p' ↦ ticks lines p'
]

-- The timer event of the object, which is not deleted.
abbrev pub IsPolling : ProcStat → Type 0
IsPolling p =
    IsTimer p.timer
    × ((te : TimerEvent) × (get_elem? p.timer.timer_events p.timer_event ≡ some (some te)))

modified {ℓ} :
    {A : Type ℓ} (i : ℕ) (f : A → A) (xs : List A) (x : A)
    → get_elem? xs i ≡ some x
    → get_elem? (modify i f xs) i ≡ some (f x)
modified i f xs x h = ground (arith, nat_beq_iff i i, get_elem?-modify i i f xs)

-- restart adds two jobs, and its timer event stays.
restart-queue :
    (i : ℕ) (te : TimerEvent) (t : Timer)
    → IsTimer t
    → get_elem? t.timer_events i ≡ some (some te)
    → (t' : Timer) × (restart i t ≡ some t')
      × IsTimer t'
      × ((te' : TimerEvent) × (get_elem? t'.timer_events i ≡ some (some te')))
      × (length t'.pool.queue ≡ length t.pool.queue + 2)
unfolding restart create_ add_job
restart-queue i te t w at_i =
    let (e, there) = with_event-some i te t w at_i in
    let t' = create_ i (set_event none te) (stopped i te e t) in
    let r : restart i t ≡ some t' = ground arith in
    let clear : Option TimerEvent → Option TimerEvent = λ _. some (set_event none te) in
    (
      t',
      r,
      restart-IsTimer i t t' r w,
      (
        set_event (some t.made) te,
        modified i (λ _. some (set_event (some t.made) te)) (modify i clear t.timer_events)
            (some (set_event none te)) (modified i clear t.timer_events (some te) at_i),
      ),
      omega (
        arith,
        length-append (t.pool.queue ++ routine i ∷ []) (routine i ∷ []),
        length-append t.pool.queue (routine i ∷ []),
      ),
    )

pub on_timer_event-some :
    (line : Str) (proc : Proc) (i : ℕ) (t' : Timer) (p : ProcStat)
    → stat2proc line ≡ some proc
    → restart i p.timer ≡ some t'
    → on_timer_event line i p ≡ some (record p { timer = t'; proc = some proc })
unfolding on_timer_event
on_timer_event-some line proc i t' p h e = ground arith

tick_then :
    (line : Str) (lines : List Str) (p q p' : ProcStat)
    → on_timer_event line p.timer_event p ≡ some q
    → ticks lines q ≡ some p'
    → ticks (line ∷ lines) p ≡ some p'
unfolding ticks
tick_then line lines p q p' h e = ground arith

-- Ticks whose texts stat2proc can read end, and each leaves two more jobs in the queue of the timer's
-- pool than it found. The timer is one as calls make it, and the object's timer event is not
-- deleted.
pub ticks_queue :
    (lines : List Str) (p : ProcStat)
    → IsPolling p
    → All (λ line. (proc : Proc) × (stat2proc line ≡ some proc)) lines
    → (p' : ProcStat) × (ticks lines p ≡ some p')
      × IsPolling p'
      × (length p'.timer.pool.queue ≡ length p.timer.pool.queue + (length lines + length lines))
unfolding ticks
ticks_queue [] p w h = (p, refl, w, omega arith)
ticks_queue (line ∷ lines) p (w, (te, at_te)) ((proc, parsed), hs) =
    let (t', r, w', live, longer) = restart-queue p.timer_event te p.timer w at_te in
    let q : ProcStat = record p { timer = t'; proc = some proc } in
    let (p', e, polling, more) = ticks_queue lines q (w', live) hs in
    (
      p',
      tick_then line lines p q p' (on_timer_event-some line proc p.timer_event t' p parsed r) e,
      polling,
      omega (arith, longer, more),
    )
