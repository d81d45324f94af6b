-- ===== src/Fts/Laws.antt =====
-- What a walk reports, and when it succeeds.
use ch_cpp_utils.Base.{
  take, take_all, length-append, rfind-append, rfind_of_plain, ◌≡◌, ◌≢◌, refl, ap, ◌∙◌, Bool, true,
  false, not, ◌&&◌, ◌||◌, List, [], ◌∷◌, ◌++◌, Str, codes, str_eq, ◌==◌, str_beq_iff, rfind, substr,
  length, is_nil, nat_beq, if◌then◌else◌, member, arith, All,
}
use ch_cpp_utils.Base.Split.Join.{drop_past}
use ch_cpp_utils.Fts.Names.{
  passes_as_file, passes_as_dir, has_flag-file, has_flag-dir, only_leading_dot, dotless_end,
  is_hidden-eq, ext_of-eq,
}
use ch_cpp_utils.Fts.{
  OnFileData, FtsOptions, Entry, Calls, is_regular, is_directory, fts_f, has_flag, is_hidden,
  ext_of, visit_file, visit_dir, visit, walk,
}

-- The options let an entry through as a file.
abbrev pub wants_file : FtsOptions → Entry → Bool
wants_file o e =
    passes_as_file e.fts_info
    && not o.ignore_regular_files
    && (not (only_leading_dot e.name) || not o.ignore_hidden_files)
    && (is_nil o.filters || member (dotless_end e.name) o.filters)

-- The options let an entry through as a directory.
abbrev pub wants_dir : FtsOptions → Entry → Bool
wants_dir o e =
    passes_as_dir e.fts_info
    && not o.ignore_regular_dirs
    && (not (only_leading_dot e.name) || (not o.ignore_hidden_dirs && not (e.name == codes ".")))

abbrev pub reports : FtsOptions → Entry → List OnFileData
reports o e =
    (if wants_file o e
      then record { name = e.name; ext = dotless_end e.name; path = e.path; flags = is_regular }
        ∷ []
      else [])
    ++ (if wants_dir o e
        then record { name = e.name; ext = dotless_end e.name; path = e.path; flags = is_directory }
          ∷ []
        else [])

abbrev pub all_reports : FtsOptions → List Entry → List OnFileData
all_reports o [] = []
all_reports o (e ∷ entries) = reports o e ++ all_reports o entries

dot_has_length : (s : Str) → s ≡ codes "." → nat_beq 1 (length s) ≡ true
dot_has_length s h = rw h

visit_entry : (o : FtsOptions) (e : Entry) → visit_file o e ++ visit_dir o e ≡ reports o e
unfolding visit_file visit_dir
visit_entry o e = ground (
  arith,
  str_beq_iff e.name (codes "."),
  dot_has_length e.name,
  has_flag-file e.fts_info,
  has_flag-dir e.fts_info,
  is_hidden-eq e.name,
  ext_of-eq e.name,
)

visit-eq-all_reports :
    (o : FtsOptions) (entries : List Entry) → visit o entries ≡ all_reports o entries
unfolding visit
visit-eq-all_reports o [] = refl
visit-eq-all_reports o (e ∷ entries) = rw (visit_entry o e, visit-eq-all_reports o entries)

-- A walk reports, in the order of the entries, each entry that passes as a file or as a directory and
-- that the options let through: hidden is a name whose only dot is its first byte, and the extension
-- is the longest end of the name that has no dot. As a file pass also symbolic links and entries
-- that could not be examined, as a directory also errors and dangling links. It succeeds exactly
-- when the tree was opened, errno is 0 at the end and it was closed.
pub walk_lem :
    (o : FtsOptions) (c : Calls) (entries : List Entry)
    → ((walk o c entries).1 ≡ (if c.opened then all_reports o entries else []))
      × ((walk o c entries).0 ≡ (c.opened && nat_beq c.errno 0 && not c.close_failed))
unfolding walk
walk_lem o c entries = ground (arith, visit-eq-all_reports o entries)

-- The extension of a name is what follows its last dot, and a name with no dot is its own extension.
pub ext_of_lem :
    (stem ext : Str)
    → All (λ b. b ≢ b'.') ext
    → (ext_of (stem ++ b'.' ∷ ext) ≡ ext) × (ext_of ext ≡ ext)
unfolding ext_of substr
ext_of_lem stem ext h = (
  rw (rfind-append b'.' stem ext h, ext_of)
      (ap (take (length (stem ++ b'.' ∷ ext))) (drop_past stem ext b'.')
        ∙ take_all (length (stem ++ b'.' ∷ ext)) ext
            (omega (arith, length-append {0} stem (b'.' ∷ ext)))),
  rw (rfind_of_plain b'.' ext h, ext_of) (take_all (length ext) ext (omega arith)),
)

-- A file whose name starts with a dot and has another dot is reported even where hidden files are
-- to be ignored, if regular files are not ignored and there is no filter.
pub dotted_hidden_file_reported :
    (o : FtsOptions) (e : Entry) (stem ext : Str)
    → has_flag e.fts_info fts_f ≡ true
    → o.ignore_regular_files ≡ false
    → o.filters ≡ []
    → e.name ≡ b'.' ∷ stem ++ b'.' ∷ ext
    → All (λ b. b ≢ b'.') ext
    → visit_file o e ≡ record { name = e.name; ext = ext; path = e.path; flags = is_regular } ∷ []
unfolding visit_file is_hidden
dotted_hidden_file_reported o e stem ext f r n named plain = ground (
  arith,
  rfind-append b'.' (b'.' ∷ stem) ext plain,
  (ext_of_lem (b'.' ∷ stem) ext plain).0,
  ap ext_of named,
  ap (λ s. rfind s b'.') named,
)
