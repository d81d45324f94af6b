-- ===== src/DirTree/Tokens/Laws.antt =====
-- The end of the token loop, and that every key has a first token.
use ch_cpp_utils.Base.Split.Laws.{before, next_piece-eq-before, pieces_at_step}
use ch_cpp_utils.Base.{
  ℕ, ◌+◌, ◌≡◌, refl, ap, ◌∙◌, List, [], ◌∷◌, Str, length, drop, is_nil, nat_beq, arith, Bool-cases,
  inl, inr,
}
use ch_cpp_utils.DirTree.Tokens.{
  slash, dot, next_token, is_last_token, tokens_at, tokens, normalize,
}

pub is_last_token-eq :
    (key : Str) (from : ℕ) → is_last_token key from ≡ is_nil (before slash (drop from key))
unfolding is_last_token
is_last_token-eq key from = ap is_nil (next_piece-eq-before slash key from)

pub is_last_token-eq-is_nil :
    (key : Str) (from : ℕ) → is_last_token key from ≡ is_nil (tokens_at key from)
unfolding is_last_token
is_last_token-eq-is_nil key from = ground (arith, pieces_at_step slash key from)

before-normalize : (key : Str) → (c : ℕ) × (s : Str) × (before slash (normalize key) ≡ c ∷ s)
unfolding before normalize
before-normalize [] = (dot, [], refl)
before-normalize (c ∷ key) = elim (Bool-cases (nat_beq c slash)) [
  | inl e ↦ (dot, [], ground arith)
  | inr e ↦ elim (Bool-cases (nat_beq c dot)) [
    | inl e' ↦ (c, before slash key, ground arith)
    | inr e' ↦ (dot, [], ground arith)
  ]
]

-- A key has a first token.
pub tokens_cons : (key : Str) → (t : Str) × (ts : List Str) × (tokens key ≡ t ∷ ts)
unfolding tokens
tokens_cons key =
    let (c, s, e) = before-normalize key in
    let first : next_token (normalize key) 0 ≡ c ∷ s =
      next_piece-eq-before slash (normalize key) 0 ∙ e in
    (
      c ∷ s,
      tokens_at (normalize key) (0 + length (c ∷ s) + 1),
      rw (pieces_at_step slash (normalize key) 0, first) refl,
    )
