-- ===== src/DirTree/Tokens.antt =====
-- Keys and their tokens: normalize, getNextToken and isLastToken of src/dirtree.cpp.
pub mod Laws
pub mod Join
use ch_cpp_utils.Base.Split.{next_piece, pieces_at}
use ch_cpp_utils.Base.{
  ℕ, zero, suc, ◌+◌, ◌-◌, Bool, true, false, not, ◌&&◌, none, some, List, [], ◌∷◌, ◌++◌, Str, find,
  substr, length, is_nil, leb, nat_beq, if◌then◌else◌,
}

abbrev pub slash : ℕ
slash = b'/'

abbrev pub dot : ℕ
dot = b'.'

-- key[0], which is the terminating NUL of an empty key
abbrev pub first_byte : Str → ℕ
first_byte [] = 0
first_byte (c ∷ s) = c

unfoldable pub normalize : Str → Str
normalize key =
    let c = first_byte key in
    if not (nat_beq c slash) && not (nat_beq c dot)
    then dot ∷ slash ∷ key
    else if nat_beq c slash
    then dot ∷ key
    else key

-- DirTree::getNextToken
abbrev pub next_token : Str → ℕ → Str
next_token = next_piece slash

unfoldable pub is_last_token : Str → ℕ → Bool
is_last_token path from = is_nil (next_token path from)

-- The tokens that the loops of insert, search and drop read one after the other.
abbrev pub tokens_at : Str → ℕ → List Str
tokens_at = pieces_at slash

unfoldable pub tokens : Str → List Str
tokens key = tokens_at (normalize key) 0
