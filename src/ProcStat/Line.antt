-- ===== src/ProcStat/Line.antt =====
-- The line of a process, whatever bytes its name has.
use ch_cpp_utils.Base.{
  ℕ, suc, ◌+◌, ◌≡◌, ◌≢◌, refl, ap, ◌∙◌, false, some, List, [], ◌∷◌, ◌++◌, Str, nat_beq, arith, All,
  index_of, rfind, rfind-append, drop, take-append, drop-append, drop-add, length,
}
use ch_cpp_utils.ProcStat.{numbers, format, filled, behind_name, stat2proc}
use ch_cpp_utils.ProcStat.Scan.{sscanf}
use ch_cpp_utils.ProcStat.Printed.{Number, print, kept, sscanf-print, print_avoids, All-append}

-- /proc/<pid>/stat as the kernel prints it: the number of the process, its name in parentheses, its
-- state, and numbers.
unfoldable pub stat_line : (pid name : Str) (state : ℕ) → List Number → Str
stat_line pid name state xs =
    (pid ++ b' ' ∷ []) ++ b'(' ∷ (name ++ b')' ∷ (b' ' ∷ state ∷ print xs))

index_of-append :
    (c : ℕ) (s t : Str) → All (λ b. b ≢ c) s → index_of c (s ++ c ∷ t) ≡ some (length s)
index_of-append c [] t h = ground arith
index_of-append c (b ∷ s) t (h, hs) = ground (arith, index_of-append c s t hs)

drop_behind : (s rest : Str) (c : ℕ) → drop (suc (length s)) (s ++ c ∷ rest) ≡ rest
drop_behind [] rest c = refl
drop_behind (b ∷ s) rest c = drop_behind s rest c

drop_two_behind : (s rest : Str) (c d : ℕ) → drop (length s + 2) (s ++ c ∷ (d ∷ rest)) ≡ rest
drop_two_behind s rest c d =
    drop-add (length s) 2 (s ++ c ∷ (d ∷ rest)) ∙ ap (drop 2) (drop-append s (c ∷ (d ∷ rest)))

behind_name_of_text :
    (name rest : Str) (d : ℕ)
    → behind_name (name ++ b')' ∷ (d ∷ rest)) (length name)
      ≡ some (filled name (sscanf format rest))
unfolding behind_name
behind_name_of_text name rest d =
    rw
      (
        drop_behind name (d ∷ rest) b')',
        drop_two_behind name rest b')' d,
        take-append name (b')' ∷ (d ∷ rest)),
      )
      refl

-- What stat2proc does where it finds the parentheses.
stat2proc_of_parens :
    (line s : Str) (i num : ℕ)
    → index_of b'(' line ≡ some i
    → drop (suc i) line ≡ s
    → rfind s b')' ≡ some num
    → stat2proc line ≡ behind_name s num
unfolding stat2proc
stat2proc_of_parens line s i num at_i after at_num = ground (arith, at_i, after, at_num)

sscanf-format :
    (state : ℕ) (xs : List Number) → sscanf format (state ∷ print xs) ≡ state ∷ kept numbers xs
unfolding sscanf
sscanf-format state xs = ap (λ k. state ∷ k) (sscanf-print numbers xs refl)

pub differs : (a b : ℕ) → nat_beq a b ≡ false → a ≢ b
differs a b h = λ (e : a ≡ b). ground arith

-- Of a line that the kernel prints, stat2proc takes the name, whatever bytes it has, the state and
-- the numbers, as far as the format goes. The number of the process has no opening parenthesis, and
-- the state is not the closing one.
pub stat2proc_of_line :
    (pid name : Str) (state : ℕ) (xs : List Number)
    → All (λ c. c ≢ b'(') pid
    → state ≢ b')'
    → stat2proc (stat_line pid name state xs) ≡ some (filled name (state ∷ kept numbers xs))
unfolding stat_line
stat2proc_of_line pid name state xs h k =
    let rest = b' ' ∷ state ∷ print xs in
    let s = name ++ b')' ∷ rest in
    let front = pid ++ b' ' ∷ [] in
    let space = differs b' ' b')' refl in
    stat2proc_of_parens (front ++ b'(' ∷ s) s (length front) (length name)
      (index_of-append b'(' front s
        (All-append b'(' pid (b' ' ∷ []) h (differs b' ' b'(' refl, tt)))
      (drop_behind front s b'(')
      (rfind-append b')' name rest
        (space, (k, print_avoids b')' xs refl space (differs b'-' b')' refl))))
    ∙ behind_name_of_text name (state ∷ print xs) b' '
    ∙ ap (λ v. some (filled name v)) (sscanf-format state xs)
