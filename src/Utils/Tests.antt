-- ===== src/Utils/Tests.antt =====
-- Runs of the helpers, and their theorems at concrete inputs.
use ch_cpp_utils.Base.{ℕ, length, take}
use ch_cpp_utils.Utils.Uuid.{uuid_from, generate_uuid}
use ch_cpp_utils.Utils.Identity.{Fits, generate_uuid-Fits}
use ch_cpp_utils.Utils.Zeros.{uuid_starts_with_zeros}
use ch_cpp_utils.Utils.Files.{send_404_not_found, Answers, child}
use ch_cpp_utils.Base.{◌≡◌, refl, true, false, none, some, [], ◌∷◌, Str, codes, length}
use ch_cpp_utils.Utils.{
  find_text, replace, ends_with, Dirent, all_files, directory_listing, some_files,
  directory_listing_of,
}

string_runs :
    (replace (codes "a.b.b") (codes "b") (codes "cd") ≡ some (codes "a.cd.b"))
    × (replace (codes "a") (codes "b") (codes "c") ≡ none)
    × (ends_with (codes "a.mp4") (codes ".mp4") ≡ true)
    × (ends_with (codes "mp4") (codes ".mp4") ≡ false)
unfolding replace find_text ends_with
string_runs = (refl, refl, refl, refl)

abbrev entry : Str → Dirent
entry name = record { name = name; is_reg = true; is_dir = false }

listing_runs :
    (directory_listing (some (entry (codes ".") ∷ entry (codes ".a") ∷ [])) ≡ codes ".a" ∷ [])
    × (directory_listing_of false true (some (entry (codes "a") ∷ [])) ≡ [])
unfolding directory_listing all_files directory_listing_of some_files
listing_runs = (refl, refl)

-- rand() that always answers 5.
abbrev five : ℕ → ℕ
five k = 5

uuid_run : generate_uuid five ≡ codes "00000700-0000-4700-8000-700000070000"
unfolding generate_uuid uuid_from
uuid_run = refl

generate_uuid-Fits_example : (length (generate_uuid five) ≡ 36) × Fits 0 (generate_uuid five)
generate_uuid-Fits_example = generate_uuid-Fits five

uuid_starts_with_zeros_example : take 5 (generate_uuid five) ≡ codes "00000"
uuid_starts_with_zeros_example = uuid_starts_with_zeros five

not_found_run :
    send_404_not_found true
    ≡ some (record {
      status = 404;
      body = codes "<html><body><center><h1>Not Found</h1></center></body></html>";
    })
unfolding send_404_not_found
not_found_run = refl

abbrev all_succeed : Answers
all_succeed = record {
  fork = child;
  setsid = true;
  chdir = true;
  close_stdin = true;
  close_stdout = true;
  close_stderr = true;
}
