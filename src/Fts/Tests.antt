-- ===== src/Fts/Tests.antt =====
-- The theorems of the walk of src/fts.cpp at concrete inputs.
use ch_cpp_utils.Base.{◌≡◌, true, false, List, [], ◌∷◌, ◌++◌, Str, codes, rfind, substr}
use ch_cpp_utils.Fts.{
  Entry, fts_d, fts_f, fts_slnone, Calls, is_regular, is_directory, default_options, ext_of,
  is_hidden, walk,
}
use ch_cpp_utils.Fts.Laws.{walk_lem}

abbrev file : Str → Entry
file name = record { fts_info = fts_f; name = name; path = codes "./" ++ name }

abbrev directory : Str → Entry
directory name = record { fts_info = fts_d; name = name; path = codes "./" ++ name }

-- A symbolic link to nothing, which the walk takes for a file and for a directory.
abbrev dangling : Entry
dangling = record { fts_info = fts_slnone; name = codes "l"; path = codes "./l" }

abbrev listing : List Entry
listing = directory (codes "d") ∷ file (codes "a.txt") ∷ file (codes ".b") ∷ dangling ∷ []

abbrev fine : Calls
fine = record { opened = true; errno = 0; close_failed = false }

walk_lem_example :
    ((walk default_options fine listing).1
      ≡ record { name = codes "d"; ext = codes "d"; path = codes "./d"; flags = is_directory }
        ∷ record {
          name = codes "a.txt";
          ext = codes "txt";
          path = codes "./a.txt";
          flags = is_regular;
        }
        ∷ record { name = codes "l"; ext = codes "l"; path = codes "./l"; flags = is_regular }
        ∷ record { name = codes "l"; ext = codes "l"; path = codes "./l"; flags = is_directory }
        ∷ [])
    × ((walk default_options fine listing).0 ≡ true)
unfolding walk is_hidden ext_of rfind substr
walk_lem_example = walk_lem default_options fine listing
