-- ===== src/Logger/Order.antt =====
-- The lines of a logger in their order, through all calls and turns.
use ch_cpp_utils.Base.{
  ℕ, Bool, true, false, some, List, [], ◌∷◌, ◌++◌, append_assoc, append-nil, Str, nat_eq, lookup,
  ◌≡◌, refl, sym, ap, ◌∙◌, subst, arith, Assoc,
}
use ch_cpp_utils.Logger.{
  Reader, testing, inside, left, holding, Logger, Call, value, manipulator, get_thread_entry, write,
  turn, begin_shutdown, end_shutdown,
}
use ch_cpp_utils.Logger.History.{
  pending, ended, Runs, starts, writes, late, reads, ends, frees, held, Follows, state,
}
use ch_cpp_utils.Logger.Streams.{entry-begun, value_stream, line_stream}

write-Follows :
    (c : Call) (h : List Call) (b : Bool) (r : Reader) (q : List Str) (m : Assoc ℕ Str)
    (p : List Str)
    → b ≡ false
    → Follows h (state b r q m p)
    → Follows (c ∷ h) (write c (state b r q m p))
unfolding write pending ended
write-Follows c h true r q m p u f = absurd (cc)
write-Follows (value t ctime bytes) h false r q m p u f = record {
  lines = f.lines;
  streams = λ e v. value_stream t v ctime bytes h m (f.streams refl);
  leaves = f.leaves;
}
write-Follows (manipulator t ctime bytes next) h false r q m p u f = record {
  lines =
      (ap (λ l. p ++ l)
          (sym (append_assoc (held r) q (((get_thread_entry t ctime m).1 ++ bytes) ∷ [])))
        ∙ sym (append_assoc p (held r ++ q) (((get_thread_entry t ctime m).1 ++ bytes) ∷ [])))
      ∙ ap (λ l. l ++ ((get_thread_entry t ctime m).1 ++ bytes) ∷ []) f.lines
      ∙ ap (λ x. ended h ++ (x ++ bytes) ∷ []) (entry-begun t ctime h m (f.streams refl t));
  streams = λ e v. line_stream t v ctime bytes next h m (f.streams refl);
  leaves = f.leaves;
}

turn-Follows :
    (h : List Call) (b : Bool) (r : Reader) (q : List Str) (m : Assoc ℕ Str) (p : List Str)
    → Follows h (state b r q m p)
    → Follows h (turn (state b r q m p))
unfolding turn
turn-Follows h b left q m p f = f
turn-Follows h true testing q m p f = record {
  lines = f.lines;
  streams = f.streams;
  leaves = λ e. refl;
}
turn-Follows h false testing q m p f = record {
  lines = f.lines;
  streams = f.streams;
  leaves = λ e. absurd (cc);
}
turn-Follows h b inside [] m p f = record {
  lines = f.lines;
  streams = f.streams;
  leaves = λ e. absurd (cc);
}
turn-Follows h b inside (x ∷ q) m p f = record {
  lines = f.lines;
  streams = f.streams;
  leaves = λ e. absurd (cc);
}
turn-Follows h b (holding x) q m p f = record {
  lines = append_assoc p (x ∷ []) q ∙ f.lines;
  streams = f.streams;
  leaves = λ e. absurd (cc);
}

end_shutdown-Follows :
    (h : List Call) (b : Bool) (r : Reader) (q : List Str) (m : Assoc ℕ Str) (p : List Str)
    (s' : Logger)
    → end_shutdown (state b r q m p) ≡ some s'
    → Follows h (state b r q m p)
    → Follows h s'
unfolding end_shutdown
end_shutdown-Follows h b testing q m p s' e f = absurd (cc)
end_shutdown-Follows h b inside q m p s' e f = absurd (cc)
end_shutdown-Follows h b (holding x) q m p s' e f = absurd (cc)
end_shutdown-Follows h b left q m p s' e f =
    subst (Follows h) {x = state b left [] [] (p ++ q)} (cc) (record {
      lines = append-nil (p ++ q) ∙ f.lines;
      streams = λ up t. absurd (ground (arith, f.leaves refl));
      leaves = λ _. f.leaves refl;
    })

late-eq : (c : Call) (s : Logger) → s.shutdown ≡ true → s ≡ write c s
unfolding write
late-eq (value t ctime bytes) s u = rw u refl
late-eq (manipulator t ctime bytes next) s u = rw u refl

begin_shutdown-Follows : (h : List Call) (s : Logger) → Follows h s → Follows h (begin_shutdown s)
unfolding begin_shutdown
begin_shutdown-Follows h s f = record {
  lines = f.lines;
  streams = λ e. absurd (cc);
  leaves = λ _. refl;
}

-- Whatever the order of the calls and of the turns of the logger's thread, what is printed, then
-- held by the thread, then queued is what the history of the calls says: each line in the order in which it was ended, with the date and what its own thread wrote, and nothing else.
pub Runs-Follows : (h : List Call) (s : Logger) → Runs h s → Follows h s
unfolding lookup pending ended
Runs-Follows h s starts = record { lines = refl; streams = λ _ _. refl; leaves = λ e. absurd (cc) }
Runs-Follows h s (writes c h₀ s₀ r u) =
    write-Follows c h₀ s₀.shutdown s₀.reader s₀.log_queue s₀.log_map s₀.printed u
      (Runs-Follows h₀ s₀ r)
Runs-Follows h s (late c h₀ s₀ r u) = subst (Follows h) (late-eq c s₀ u) (Runs-Follows h s₀ r)
Runs-Follows h s (reads _ s₀ r) =
    turn-Follows h s₀.shutdown s₀.reader s₀.log_queue s₀.log_map s₀.printed (Runs-Follows h s₀ r)
Runs-Follows h s (ends _ s₀ r) = begin_shutdown-Follows h s₀ (Runs-Follows h s₀ r)
Runs-Follows h s (frees _ s₀ _ r e) =
    end_shutdown-Follows h s₀.shutdown s₀.reader s₀.log_queue s₀.log_map s₀.printed s e
      (Runs-Follows h s₀ r)
