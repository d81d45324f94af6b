-- ===== src/Logger/Shutdown.antt =====
-- The destructor of a logger: its wait ends, and no line is lost.
use ch_cpp_utils.Base.{
  Bool, true, some, List, [], ◌∷◌, ◌++◌, append-nil, Str, Assoc, ℕ, ◌≡◌, refl, sym, ◌∙◌, suc, zero,
}
use ch_cpp_utils.Logger.{
  Reader, testing, inside, left, holding, Logger, Call, turn, turns, begin_shutdown, end_shutdown,
}
use ch_cpp_utils.Logger.Order.{Runs-Follows}
use ch_cpp_utils.Logger.History.{Runs, reads, ends, frees, ended, state, held}

turns-Runs : (n : ℕ) (h : List Call) (s : Logger) → Runs h s → Runs h (turns n s)
unfolding turns
turns-Runs zero h s r = r
turns-Runs (suc n) h s r = turns-Runs n h (turn s) (reads h s r)

-- Wherever the thread stands, it is behind its loop after three turns.
three_turns :
    (r : Reader) (q : List Str) (m : Assoc ℕ Str) (p : List Str)
    → (turns 3 (state true r q m p)).reader ≡ left
unfolding turns turn
three_turns testing q m p = refl
three_turns inside [] m p = refl
three_turns inside (x ∷ q) m p = refl
three_turns left q m p = refl
three_turns (holding x) q m p = refl

end_shutdown-some :
    (b : Bool) (r : Reader) (q : List Str) (m : Assoc ℕ Str) (p : List Str)
    → r ≡ left
    → (s' : Logger) × (end_shutdown (state b r q m p) ≡ some s')
      × (s'.log_queue ≡ [])
      × (s'.reader ≡ left)
unfolding end_shutdown
end_shutdown-some b left q m p e = (state b left [] [] (p ++ q), refl, refl, refl)
end_shutdown-some b testing q m p e = absurd (cc)
end_shutdown-some b inside q m p e = absurd (cc)
end_shutdown-some b (holding x) q m p e = absurd (cc)

-- Where the thread has left and the queue is empty, all is printed.
printed-eq-lines : (r : Reader) (q p : List Str) → q ≡ [] → r ≡ left → p ≡ p ++ (held r ++ q)
printed-eq-lines r q p e k = rw (e, k) (sym (append-nil p))

-- After any calls and turns, the thread leaves its loop within three turns of the destructor's write of `shutdown`, the destructor returns, and
-- std::cout then has all lines that were ended before, each once and in the order in which they were ended.
pub destructor_prints_all :
    (h : List Call) (s : Logger)
    → Runs h s
    → (s' : Logger) × (end_shutdown (turns 3 (begin_shutdown s)) ≡ some s') × (s'.printed ≡ ended h)
unfolding begin_shutdown
destructor_prints_all h s r =
    let at_end = turns 3 (begin_shutdown s) in
    let behind = turns-Runs 3 h (begin_shutdown s) (ends h s r) in
    let (s', e, empty, gone) =
      end_shutdown-some at_end.shutdown at_end.reader at_end.log_queue at_end.log_map at_end.printed
        (three_turns s.reader s.log_queue s.log_map s.printed) in
    let f = Runs-Follows h s' (frees h at_end s' behind e) in
    (s', e, printed-eq-lines s'.reader s'.log_queue s'.printed empty gone ∙ f.lines)
