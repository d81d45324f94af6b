-- ===== src/Utils/Strings.antt =====
-- What replace and endsWith do to texts.
use ch_cpp_utils.Base.{
  ℕ, zero, suc, ◌+◌, ◌-◌, ◌≤◌, ◌≡◌, subst, ◌↔◌, refl, ap, sym, ◌∙◌, true, ◌&&◌, some, [], ◌∷◌, ◌++◌,
  Str, str_eq, str_beq_iff, str_beq_refl, ◌==◌, length, take, drop, leb, arith, length-append,
  take-append, drop-append, take_all, length-drop, drop-add, Bool-cases, inl, inr,
}
use ch_cpp_utils.Utils.{begins_with, find_text, replace, ends_with}

take-drop : (n : ℕ) (s : Str) → take n s ++ drop n s ≡ s
take-drop zero s = refl
take-drop (suc n) [] = refl
take-drop (suc n) (c ∷ s) = ap (λ r. c ∷ r) (take-drop n s)

drop_suffix : (p t : Str) → drop (length (p ++ t) - length t) (p ++ t) ≡ t
drop_suffix p t = ap (λ n. drop n (p ++ t)) (front p t) ∙ drop-append p t
  where
    front : (p t : Str) → length (p ++ t) - length t ≡ length p
    front p t = omega (arith, length-append p t)

ends :
    (p t : Str)
    → (leb (length t) (length (p ++ t))
        && take (length t) (drop (length (p ++ t) - length t) (p ++ t)) == t)
      ≡ true
ends p t = ground (arith, length-append p t, drop_suffix p t, take_all (length t) t, str_beq_refl t)

-- A text ends with a suffix exactly if it is some text and then the suffix.
pub ends_with_iff : (s suffix : Str) → (ends_with s suffix ≡ true) ↔ ((p : Str) × (s ≡ p ++ suffix))
unfolding ends_with
ends_with_iff s suffix =
    (λ h. (take (length s - length suffix) s, split s suffix h), λ (p, e). joined p suffix s e)
  where
    split :
        (s suffix : Str)
        → (leb (length suffix) (length s)
            && take (length suffix) (drop (length s - length suffix) s) == suffix)
          ≡ true
        → s ≡ take (length s - length suffix) s ++ suffix
    split s suffix h =
        sym (take-drop (length s - length suffix) s)
        ∙ ap (λ r. take (length s - length suffix) s ++ r)
            (ground (
              arith,
              take_all (length suffix) (drop (length s - length suffix) s),
              length-drop (length s - length suffix) s,
              str_beq_iff (take (length suffix) (drop (length s - length suffix) s)) suffix,
            ))

    joined :
        (p suffix s : Str)
        → s ≡ p ++ suffix
        → (leb (length suffix) (length s)
            && take (length suffix) (drop (length s - length suffix) s) == suffix)
          ≡ true
    joined p suffix s e =
        subst
          (λ s.
            (leb (length suffix) (length s)
              && take (length suffix) (drop (length s - length suffix) s) == suffix)
            ≡ true)
          (sym e) (ends p suffix)

find_text_here : (what s : Str) → begins_with what s ≡ true → find_text what s ≡ some 0
unfolding find_text
find_text_here what [] h = ground arith
find_text_here what (c ∷ s) h = ground arith

-- An occurrence is found, or one before it.
find_text_first :
    (what p q : Str) → (i : ℕ) × (find_text what (p ++ (what ++ q)) ≡ some i) × (i ≤ length p)
unfolding find_text
find_text_first what [] q =
    (0, find_text_here what (what ++ q) (rw (take-append what q) (str_beq_refl what)), omega arith)
find_text_first what (c ∷ p) q =
    let (i, found, le) = find_text_first what p q in
    elim (Bool-cases (begins_with what (c ∷ p ++ (what ++ q)))) [
      | inl here ↦ (0, ground arith, omega arith)
      | inr later ↦ (suc i, ground arith, omega arith)
    ]

find_text_sound :
    (what s : Str) (i : ℕ) → find_text what s ≡ some i → take (length what) (drop i s) ≡ what
unfolding find_text
find_text_sound what [] zero h = ground (arith, str_beq_iff (take (length what) []) what)
find_text_sound what [] (suc i) h = absurd (ground arith)
find_text_sound what (c ∷ s) zero h = ground (arith, str_beq_iff (take (length what) (c ∷ s)) what)
find_text_sound what (c ∷ s) (suc i) h = ground (arith, find_text_sound what s i)

length-take : (n : ℕ) (s : Str) → length (take n s) ≤ n
length-take zero s = omega arith
length-take (suc n) [] = omega arith
length-take (suc n) (c ∷ s) = omega (arith, length-take n s)

-- The text around an occurrence.
around :
    (what s : Str) (i : ℕ)
    → take (length what) (drop i s) ≡ what
    → s ≡ take i s ++ (what ++ drop (i + length what) s)
around what s i h =
    sym (take-drop i s)
    ∙ ap (λ r. take i s ++ r)
        (sym (take-drop (length what) (drop i s))
          ∙ ap (λ r. r ++ drop (length what) (drop i s)) h
          ∙ ap (λ r. what ++ r) (sym (drop-add i (length what) s)))

replace_at :
    (s what with_text : Str) (i : ℕ)
    → find_text what s ≡ some i
    → replace s what with_text ≡ some (take i s ++ (with_text ++ drop (i + length what) s))
unfolding replace
replace_at s what with_text i e = ground arith

-- In a text with an occurrence of the text to be found, replace returns, with the new text in place
-- of an occurrence that begins no later than that one.
pub replace_lem :
    (what with_text p q : Str)
    → (p' : Str) × (q' : Str) × (replace (p ++ (what ++ q)) what with_text
        ≡ some (p' ++ (with_text ++ q')))
      × (p ++ (what ++ q) ≡ p' ++ (what ++ q'))
      × (length p' ≤ length p)
replace_lem what with_text p q =
    let s : Str = p ++ (what ++ q) in
    let (i, found, le) = find_text_first what p q in
    (
      take i s,
      drop (i + length what) s,
      replace_at s what with_text i found,
      around what s i (find_text_sound what s i found),
      omega (arith, length-take i s, le),
    )
