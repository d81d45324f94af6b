-- ===== src/Fts.antt =====
-- class Fts of src/fts.cpp: a walk over a directory tree. The entries that fts(3) of the C library
-- yields are an argument.
pub mod Names
pub mod Laws
mod Tests
use Prim.Native.Nat.{bit_and}
use ch_cpp_utils.Base.{
  ℕ, suc, ◌+◌, Bool, true, false, not, ◌&&◌, Option, none, some, List, [], ◌∷◌, ◌++◌, Str, codes,
  str_eq, ◌==◌, rfind, substr, length, is_nil, nat_beq, if◌then◌else◌, member,
}

pub data OnFileFlag : Type 0 where
  is_regular is_directory : OnFileFlag

-- struct OnFileData; the callers set one flag
pub record OnFileData : Type 0 where
  pub name : Str
  pub ext : Str
  pub path : Str
  pub flags : OnFileFlag

pub record FtsOptions : Type 0 where
  pub ignore_hidden_files : Bool
  pub ignore_hidden_dirs : Bool
  pub ignore_regular_files : Bool
  pub ignore_regular_dirs : Bool
  pub filters : List Str

-- The enumeration of fts_info, whose values are those of <fts.h> in glibc.
pub data FtsInfo : Type 0 where
  fts_d fts_dc fts_default fts_dnr fts_dot fts_dp fts_err : FtsInfo
  fts_f fts_init fts_ns fts_nsok fts_sl fts_slnone fts_w : FtsInfo

abbrev pub fts_value : FtsInfo → ℕ
fts_value fts_d = 1
fts_value fts_dc = 2
fts_value fts_default = 3
fts_value fts_dnr = 4
fts_value fts_dot = 5
fts_value fts_dp = 6
fts_value fts_err = 7
fts_value fts_f = 8
fts_value fts_init = 9
fts_value fts_ns = 10
fts_value fts_nsok = 11
fts_value fts_sl = 12
fts_value fts_slnone = 13
fts_value fts_w = 14

-- An FTSENT.
pub record Entry : Type 0 where
  pub fts_info : FtsInfo
  pub name : Str
  pub path : Str

-- fts_info & flag, as a condition
unfoldable pub has_flag : FtsInfo → FtsInfo → Bool
has_flag info flag = not (nat_beq (bit_and (fts_value info) (fts_value flag)) 0)

-- What the constructors make of no options.
abbrev pub default_options : FtsOptions
default_options = record {
  ignore_hidden_files = true;
  ignore_hidden_dirs = true;
  ignore_regular_files = false;
  ignore_regular_dirs = false;
  filters = [];
}

-- Fts::Fts: the root that is walked
unfoldable pub root_of : Str → Str
root_of root = if nat_beq 0 (length root) then codes "." else root

-- name.substr(pos + 1) for pos = name.find_last_of('.'), where npos + 1 is 0
unfoldable pub ext_of : Str → Str
ext_of name = elim (rfind name b'.') [
  | none ↦ substr name 0 (length name)
  | some pos ↦ substr name (pos + 1) (length name)
]

-- 0 == pos
unfoldable pub is_hidden : Str → Bool
is_hidden name = elim (rfind name b'.') [ none ↦ false | some pos ↦ nat_beq 0 pos ]

abbrev pub fire_file_cbk : Str → Str → Str → List OnFileData
fire_file_cbk name ext path =
    record { name = name; ext = ext; path = path; flags = is_regular } ∷ []

abbrev pub fire_dir_cbk : Str → Str → Str → List OnFileData
fire_dir_cbk name ext path =
    record { name = name; ext = ext; path = path; flags = is_directory } ∷ []

-- The callbacks for one entry as a file.
unfoldable pub visit_file : FtsOptions → Entry → List OnFileData
visit_file o e =
    if has_flag e.fts_info fts_f && not o.ignore_regular_files
    then (if is_hidden e.name
        then (if not o.ignore_hidden_files
            then (if is_nil o.filters
                then fire_file_cbk e.name (ext_of e.name) e.path
                else if member (ext_of e.name) o.filters
                then fire_file_cbk e.name (ext_of e.name) e.path
                else [])
            else [])
        else if is_nil o.filters
        then fire_file_cbk e.name (ext_of e.name) e.path
        else if member (ext_of e.name) o.filters
        then fire_file_cbk e.name (ext_of e.name) e.path
        else [])
    else []

-- The callbacks for one entry as a directory.
unfoldable pub visit_dir : FtsOptions → Entry → List OnFileData
visit_dir o e =
    if has_flag e.fts_info fts_d && not o.ignore_regular_dirs
    then (if is_hidden e.name
        then (if not o.ignore_hidden_dirs
            then (if nat_beq 1 (length e.name) && e.name == codes "."
                then []
                else fire_dir_cbk e.name (ext_of e.name) e.path)
            else [])
        else fire_dir_cbk e.name (ext_of e.name) e.path)
    else []

-- The loop of walk over the entries that fts_read returns.
unfoldable pub visit : FtsOptions → List Entry → List OnFileData
visit o [] = []
visit o (e ∷ entries) = (visit_file o e ++ visit_dir o e) ++ visit o entries

-- The results of fts_open, of errno after the loop and of fts_close.
pub record Calls : Type 0 where
  pub opened : Bool
  pub errno : ℕ
  pub close_failed : Bool

unfoldable pub walk : FtsOptions → Calls → List Entry → Bool × List OnFileData
walk o c entries =
    if not c.opened
    then (false, [])
    else if not (nat_beq c.errno 0)
    then (false, visit o entries)
    else (not c.close_failed, visit o entries)
