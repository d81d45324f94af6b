-- ===== src/Fts/Names.antt =====
-- The parts of a name and the entries that the tests of src/fts.cpp let through, without the code's
-- searches and bit tests.
use ch_cpp_utils.Base.{
  ◌+◌, ◌≡◌, refl, Bool, true, false, not, ◌&&◌, none, some, [], ◌∷◌, Str, rfind, substr, length,
  length-drop, take_all, drop, nat_beq, if◌then◌else◌, Option-cases, inl, inr, arith,
}
use ch_cpp_utils.Fts.{
  FtsInfo, fts_d, fts_dc, fts_default, fts_dnr, fts_dot, fts_dp, fts_err, fts_f, fts_init, fts_ns,
  fts_nsok, fts_sl, fts_slnone, fts_w, has_flag, is_hidden, ext_of,
}

-- What is taken for a file: files, symbolic links, and entries that could not be examined.
abbrev pub passes_as_file : FtsInfo → Bool
passes_as_file fts_d = false
passes_as_file fts_dc = false
passes_as_file fts_default = false
passes_as_file fts_dnr = false
passes_as_file fts_dot = false
passes_as_file fts_dp = false
passes_as_file fts_err = false
passes_as_file fts_f = true
passes_as_file fts_init = true
passes_as_file fts_ns = true
passes_as_file fts_nsok = true
passes_as_file fts_sl = true
passes_as_file fts_slnone = true
passes_as_file fts_w = true

-- What is taken for a directory: directories before their entries, and, among others, entries of no
-- other kind, errors and dangling links.
abbrev pub passes_as_dir : FtsInfo → Bool
passes_as_dir fts_d = true
passes_as_dir fts_dc = false
passes_as_dir fts_default = true
passes_as_dir fts_dnr = false
passes_as_dir fts_dot = true
passes_as_dir fts_dp = false
passes_as_dir fts_err = true
passes_as_dir fts_f = false
passes_as_dir fts_init = true
passes_as_dir fts_ns = false
passes_as_dir fts_nsok = true
passes_as_dir fts_sl = false
passes_as_dir fts_slnone = true
passes_as_dir fts_w = false

pub has_flag-file : (info : FtsInfo) → has_flag info fts_f ≡ passes_as_file info
unfolding has_flag
has_flag-file fts_d = refl
has_flag-file fts_dc = refl
has_flag-file fts_default = refl
has_flag-file fts_dnr = refl
has_flag-file fts_dot = refl
has_flag-file fts_dp = refl
has_flag-file fts_err = refl
has_flag-file fts_f = refl
has_flag-file fts_init = refl
has_flag-file fts_ns = refl
has_flag-file fts_nsok = refl
has_flag-file fts_sl = refl
has_flag-file fts_slnone = refl
has_flag-file fts_w = refl

pub has_flag-dir : (info : FtsInfo) → has_flag info fts_d ≡ passes_as_dir info
unfolding has_flag
has_flag-dir fts_d = refl
has_flag-dir fts_dc = refl
has_flag-dir fts_default = refl
has_flag-dir fts_dnr = refl
has_flag-dir fts_dot = refl
has_flag-dir fts_dp = refl
has_flag-dir fts_err = refl
has_flag-dir fts_f = refl
has_flag-dir fts_init = refl
has_flag-dir fts_ns = refl
has_flag-dir fts_nsok = refl
has_flag-dir fts_sl = refl
has_flag-dir fts_slnone = refl
has_flag-dir fts_w = refl

-- A name with no dot.
abbrev pub dotless : Str → Bool
dotless [] = true
dotless (c ∷ s) = not (nat_beq c b'.') && dotless s

-- A name whose only dot is its first byte.
abbrev pub only_leading_dot : Str → Bool
only_leading_dot [] = false
only_leading_dot (c ∷ s) = nat_beq c b'.' && dotless s

-- The longest end of a name that has no dot.
abbrev pub dotless_end : Str → Str
dotless_end [] = []
dotless_end (c ∷ s) = if dotless (c ∷ s) then c ∷ s else dotless_end s

rfind-dotless : (s : Str) → (elim (rfind s b'.') [ none ↦ true | some i ↦ false ]) ≡ dotless s
unfolding rfind
rfind-dotless [] = refl
rfind-dotless (c ∷ s) = ground (arith, rfind-dotless s)

pub is_hidden-eq : (s : Str) → is_hidden s ≡ only_leading_dot s
unfolding is_hidden rfind
is_hidden-eq [] = refl
is_hidden-eq (c ∷ s) = ground (arith, rfind-dotless s)

past_dot : (s : Str) → (elim (rfind s b'.') [ none ↦ s | some i ↦ drop (i + 1) s ]) ≡ dotless_end s
unfolding rfind
past_dot [] = refl
past_dot (c ∷ s) = ground (arith, past_dot s, rfind-dotless s)

pub ext_of-eq : (s : Str) → ext_of s ≡ dotless_end s
unfolding ext_of substr
ext_of-eq s = elim (Option-cases (rfind s b'.')) [
  | inl e ↦ ground (arith, e, past_dot s, take_all (length s) s)
  | inr (i, e) ↦
      ground (arith, e, past_dot s, length-drop (i + 1) s, take_all (length s) (drop (i + 1) s))
]
