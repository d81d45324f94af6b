-- ===== src/ProcStat/Size.antt =====
-- The resident size that getRSS answers, and what each tick leaves in the queue of the timer's pool.
use ch_cpp_utils.Base.{
  ℕ, zero, suc, ◌*◌, ◌%◌, ◌^◌, ◌<◌, ◌≡◌, ◌≢◌, ◌↔◌, refl, sym, ap, ◌∙◌, subst, false, Option, none,
  some, List, [], ◌∷◌, Str, arith, All, get_elem?,
}
use ch_cpp_utils.ProcStat.{Proc, ProcStat, numbers, filled, stat2proc, on_timer_event, get_rss}
use ch_cpp_utils.ProcStat.Scan.{Directive, character, number_of, skip_number, skip_word, in_bits}
use ch_cpp_utils.ProcStat.Printed.{Number, kept}
use ch_cpp_utils.ProcStat.Line.{stat_line, stat2proc_of_line}

-- The bits of the k-th conversion, where it and all before it store a number.
abbrev number_at : ℕ → List Directive → Option ℕ
number_at k [] = none
number_at zero (number_of bits ∷ ds) = some bits
number_at (suc k) (number_of bits ∷ ds) = number_at k ds
number_at k (character ∷ ds) = none
number_at k (skip_number ∷ ds) = none
number_at k (skip_word ∷ ds) = none

kept_at :
    (k bits : ℕ) (x : Number) (ds : List Directive) (xs : List Number)
    → number_at k ds ≡ some bits
    → get_elem? xs k ≡ some x
    → get_elem? (kept ds xs) k ≡ some (in_bits bits x.0 x.1)
unfolding kept
kept_at k bits x [] xs h e = absurd (cc)
kept_at k bits x (character ∷ ds) xs h e = absurd (cc)
kept_at k bits x (skip_number ∷ ds) xs h e = absurd (cc)
kept_at k bits x (skip_word ∷ ds) xs h e = absurd (cc)
kept_at k bits x (number_of b ∷ ds) [] h e = absurd (cc)
kept_at zero bits x (number_of b ∷ ds) (y ∷ xs) h e = ground arith
kept_at (suc k) bits x (number_of b ∷ ds) (y ∷ xs) h e = kept_at k bits x ds xs h e

-- The number of pages is the 24th field of the line.
abbrev pub rss_field : ℕ
rss_field = 20

rss_of_line :
    (name : Str) (state pages : ℕ) (xs : List Number)
    → get_elem? xs rss_field ≡ some (false, pages)
    → pages < 2 ^ 63
    → (filled name (state ∷ kept numbers xs)).rss ≡ pages
unfolding filled
rss_of_line name state pages xs h k =
    ap (λ o. elim o [ none ↦ 0 | some v ↦ v ])
      (kept_at rss_field 64 (false, pages) numbers xs refl h)
    ∙ omega (arith, k)

cut_iff : (n : ℕ) → (some (n % 2 ^ 32) ≡ some n) ↔ (n < 2 ^ 32)
cut_iff n = ground arith

on_timer_event-proc :
    (line : Str) (i : ℕ) (p p' : ProcStat) (proc : Proc)
    → on_timer_event line i p ≡ some p'
    → stat2proc line ≡ some proc
    → (p'.proc ≡ some proc) × (p'.page_size ≡ p.page_size)
unfolding on_timer_event
on_timer_event-proc line i p p' proc h e = ground arith

get_rss_of :
    (p : ProcStat) (proc : Proc)
    → p.proc ≡ some proc
    → get_rss p ≡ some ((proc.rss * p.page_size) % 2 ^ 32)
unfolding get_rss
get_rss_of p proc h = ground arith

-- After a tick on a line of the kernel, getRSS answers the pages of that line times the size of a
-- page, modulo 2^32: the size in bytes exactly where it is below 4 GiB. The pages and the product fit
-- in a long, the number of the process has no parenthesis, and the state is none.
pub get_rss_of_line :
    (pid name : Str) (state pages i : ℕ) (xs : List Number) (p p' : ProcStat)
    → All (λ c. c ≢ b'(') pid
    → state ≢ b')'
    → get_elem? xs rss_field ≡ some (false, pages)
    → pages < 2 ^ 63
    → pages * p.page_size < 2 ^ 63
    → on_timer_event (stat_line pid name state xs) i p ≡ some p'
    → (get_rss p' ≡ some ((pages * p.page_size) % 2 ^ 32))
      × ((get_rss p' ≡ some (pages * p.page_size)) ↔ (pages * p.page_size < 2 ^ 32))
get_rss_of_line pid name state pages i xs p p' h k at_rss small defined e =
    let proc = filled name (state ∷ kept numbers xs) in
    let (a, b) =
      on_timer_event-proc (stat_line pid name state xs) i p p' proc e
        (stat2proc_of_line pid name state xs h k) in
    let r =
      get_rss_of p' proc a
      ∙ ap (λ (n : ℕ). some ((n * p'.page_size) % 2 ^ 32))
          (rss_of_line name state pages xs at_rss small)
      ∙ ap (λ (n : ℕ). some ((pages * n) % 2 ^ 32)) b in
    (
      r,
      subst (λ o. (o ≡ some (pages * p.page_size)) ↔ (pages * p.page_size < 2 ^ 32)) (sym r)
          (cut_iff (pages * p.page_size)),
    )
