-- ===== src/Utils.antt =====
-- The string and directory helpers of src/utils.cpp.
pub mod Strings
pub mod Uuid
pub mod Identity
pub mod Zeros
pub mod Files
mod Tests
use ch_cpp_utils.Base.{
  ℕ, zero, suc, ◌+◌, ◌-◌, Bool, true, false, not, ◌&&◌, Option, none, some, List, [], ◌∷◌, ◌++◌,
  Str, codes, str_eq, ◌==◌, length, take, drop, leb, if◌then◌else◌,
}

-- The text begins with `prefix`.
abbrev pub begins_with : Str → Str → Bool
begins_with prefix s = take (length prefix) s == prefix

-- s.find(what); `none` is npos
unfoldable pub find_text : Str → Str → Option ℕ
find_text what [] = if begins_with what [] then some 0 else none
find_text what (c ∷ s) =
    if begins_with what (c ∷ s)
    then some 0
    else elim (find_text what s) [ none ↦ none | some i ↦ some (suc i) ]

-- replace; `none` is the exception that std::string::replace throws at npos
unfoldable pub replace : Str → Str → Str → Option Str
replace s what with_text = elim (find_text what s) [
  | none ↦ none
  | some pos ↦ some (take pos s ++ (with_text ++ drop (pos + length what) s))
]

-- endsWith
unfoldable pub ends_with : Str → Str → Bool
ends_with s suffix =
    leb (length suffix) (length s)
    && take (length suffix) (drop (length s - length suffix) s) == suffix

-- A struct dirent: its name, and whether its type is DT_REG or DT_DIR.
pub record Dirent : Type 0 where
  pub name : Str
  pub is_reg : Bool
  pub is_dir : Bool

abbrev pub is_listed : Dirent → Bool
is_listed e = not (e.name == codes ".") && not (e.name == codes "..")

-- directoryListing(directory), over the entries that readdir returns; `none` is a directory that
-- cannot be opened
unfoldable pub all_files : List Dirent → List Str
all_files [] = []
all_files (e ∷ entries) = if is_listed e then e.name ∷ all_files entries else all_files entries

unfoldable pub directory_listing : Option (List Dirent) → List Str
directory_listing none = []
directory_listing (some entries) = all_files entries

-- The loop of directoryListing(directory, filesOnly, dirsOnly)
unfoldable pub some_files : Bool → Bool → List Dirent → List Str
some_files files_only dirs_only [] = []
some_files files_only dirs_only (e ∷ entries) =
    (if is_listed e
      then (if files_only && e.is_reg then e.name ∷ [] else [])
        ++ (if dirs_only && e.is_dir then e.name ∷ [] else [])
      else [])
    ++ some_files files_only dirs_only entries

unfoldable pub directory_listing_of : Bool → Bool → Option (List Dirent) → List Str
directory_listing_of files_only dirs_only none = []
directory_listing_of files_only dirs_only (some entries) = some_files files_only dirs_only entries
