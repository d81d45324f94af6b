-- ===== src/DirTree/Tokens/Join.antt =====
-- The spellings of a path: the token loop of src/dirtree.cpp reads back the parts of a path.
use ch_cpp_utils.Base.{
  Bool-cases, inl, inr, nat_beq, if◌then◌else◌, ◌≡◌, ◌≢◌, refl, List, [], ◌∷◌, Str, arith, All,
}
use ch_cpp_utils.DirTree.Tokens.{slash, dot, first_byte, tokens_at, tokens, normalize}
use ch_cpp_utils.Base.Split.{join_by}
use ch_cpp_utils.Base.Split.Join.{IsPiece, pieces_at-join_by}

-- What can stand between two slashes.
abbrev pub IsPart : Str → Type 0
IsPart = IsPiece slash

-- The parts of a path joined by slashes.
abbrev pub join : List Str → Str
join = join_by slash

pub tokens_at-join : (parts : List Str) → All IsPart parts → tokens_at (join parts) 0 ≡ parts
tokens_at-join = pieces_at-join_by slash

-- The token "." with which every normalized key begins.
abbrev pub here : Str
here = dot ∷ []

pub IsPart-here : IsPart here
IsPart-here = (cc, (omega arith, tt))

join-here : (p : Str) (ps : List Str) → join (here ∷ p ∷ ps) ≡ dot ∷ slash ∷ join (p ∷ ps)
unfolding join_by
join-here p ps = refl

first_byte-join : (p : Str) (ps : List Str) → p ≢ [] → first_byte (join (p ∷ ps)) ≡ first_byte p
unfolding join_by
first_byte-join [] ps h = absurd (h refl)
first_byte-join (c ∷ p) [] h = refl
first_byte-join (c ∷ p) (q ∷ qs) h = refl

first_byte_ne_slash : (p : Str) → IsPart p → first_byte p ≢ slash
first_byte_ne_slash [] h = absurd (h.0 refl)
first_byte_ne_slash (c ∷ p) h = h.1.0

normalize_dotted : (key : Str) → first_byte key ≡ dot → normalize key ≡ key
unfolding normalize
normalize_dotted key h = ground arith

normalize_relative :
    (key : Str) → first_byte key ≢ slash → first_byte key ≢ dot → normalize key ≡ dot ∷ slash ∷ key
unfolding normalize
normalize_relative key h k = ground arith

relative :
    (p : Str) (ps : List Str)
    → All IsPart (p ∷ ps)
    → tokens (join (p ∷ ps)) ≡ (if nat_beq (first_byte p) dot then p ∷ ps else here ∷ p ∷ ps)
unfolding tokens
relative p ps h =
    let first = first_byte-join p ps h.0.0 in
    let no_slash = rw (← first) at (first_byte_ne_slash p h.0) in
    elim (Bool-cases (nat_beq (first_byte p) dot)) [
      | inl dotted ↦ rw dotted (
          rw (normalize_dotted (join (p ∷ ps)) (rw first (ground arith)))
            (tokens_at-join (p ∷ ps) h))
      | inr other ↦ rw other (
          rw (normalize_relative (join (p ∷ ps)) no_slash (rw first (ground arith)))
            (rw (join-here p ps) at (tokens_at-join (here ∷ p ∷ ps) (IsPart-here, h))))
    ]

-- The spellings of a path whose parts hold no slash and are not empty: absolute or with a leading
-- "./" it is read as "." and then its parts, and relative so too, unless it begins with a dot: then
-- it is read as its parts alone.
pub tokens_spellings :
    (p : Str) (ps : List Str)
    → All IsPart (p ∷ ps)
    → (tokens (slash ∷ join (p ∷ ps)) ≡ here ∷ p ∷ ps)
      × (tokens (dot ∷ slash ∷ join (p ∷ ps)) ≡ here ∷ p ∷ ps)
      × (tokens (join (p ∷ ps)) ≡ (if nat_beq (first_byte p) dot then p ∷ ps else here ∷ p ∷ ps))
unfolding tokens
tokens_spellings p ps h =
    let whole = rw (join-here p ps) at (tokens_at-join (here ∷ p ∷ ps) (IsPart-here, h)) in
    (unfold normalize in whole, unfold normalize in whole, relative p ps h)
