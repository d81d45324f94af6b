-- ===== src/Config/Laws.antt =====
-- Which file init reads, what the getters answer behind it, and how it ends otherwise.
use ch_cpp_utils.Base.{
  ℕ, ◌^◌, ◌<◌, ◌≡◌, ◌≢◌, ◌↔◌, Bool, false, Option, none, some, Str, codes, if◌then◌else◌, arith,
  Option-cases, inl, inr,
}
use ch_cpp_utils.Config.{
  Config, Json, returned, terminated, select_config_file, populate_config_values, init,
}

-- The file that is read: the one under /etc, or the local one where there is none.
abbrev pub selected : (Str → Bool) → Config → Option Str
selected exists c =
    if exists c.etc_config_path
    then some c.etc_config_path
    else if exists c.local_config_path
    then some c.local_config_path
    else none

-- What a file says, where it has all five values and the numbers fit.
abbrev pub Says :
    Json → (daemon console : Bool) (run_for : ℕ) (run_forever : Bool) (max_rss : ℕ) → Type 0
Says json daemon console run_for run_forever max_rss =
    (json.get_bool (codes "daemon") ≡ some daemon)
    × (json.get_bool (codes "console") ≡ some console)
    × (json.get_unsigned (codes "run-for") ≡ some run_for)
    × (json.get_bool (codes "run-forever") ≡ some run_forever)
    × (json.get_unsigned (codes "max-rss") ≡ some max_rss)

select_config_file-eq :
    (exists : Str → Bool) (c : Config) (path : Str)
    → selected exists c ≡ some path
    → select_config_file exists c ≡ some (record c { selected_config_path = path })
unfolding select_config_file
select_config_file-eq exists c path h = ground arith

populate_config_values-eq :
    (json : Json) (c : Config) (daemon console run_forever : Bool) (run_for max_rss : ℕ)
    → Says json daemon console run_for run_forever max_rss
    → run_for < 2 ^ 32
    → max_rss < 2 ^ 64
    → populate_config_values json c
      ≡ some (record c {
        daemon = daemon;
        log_to_console = console;
        run_for = run_for;
        run_forever = run_forever;
        max_rss = some max_rss;
      })
unfolding populate_config_values
populate_config_values-eq json c daemon console run_forever run_for max_rss (a, b, d, e, f) k l =
    rw (a, b, d, e, f) (ground arith)

module _ (exists : Str → Bool) (parse : Str → Option Json) (c : Config) where
  init_of_selected :
      (c' c'' : Config) (json : Json)
      → select_config_file exists c ≡ some c'
      → parse c'.selected_config_path ≡ some json
      → populate_config_values json c' ≡ some c''
      → init exists parse c ≡ returned c''
  unfolding init
  init_of_selected c' c'' json e p h = ground (arith, e, p, h)

  -- Where the file under /etc, or the local one if there is none, parses and has all five values, init
  -- returns with them. The numbers fit in 32 and in 64 bits.
  pub init_lem :
      (path : Str) (json : Json) (daemon console run_forever : Bool) (run_for max_rss : ℕ)
      → selected exists c ≡ some path
      → parse path ≡ some json
      → Says json daemon console run_for run_forever max_rss
      → run_for < 2 ^ 32
      → max_rss < 2 ^ 64
      → init exists parse c
        ≡ returned (record c {
          selected_config_path = path;
          daemon = daemon;
          log_to_console = console;
          run_for = run_for;
          run_forever = run_forever;
          max_rss = some max_rss;
        })
  init_lem path json daemon console run_forever run_for max_rss s p says k l =
      init_of_selected (record c { selected_config_path = path }) _ json
        (select_config_file-eq exists c path s) p
        (populate_config_values-eq json (record c { selected_config_path = path }) daemon console
          run_forever run_for max_rss says k l)

  not_terminated :
      (c' : Config) → select_config_file exists c ≡ some c' → init exists parse c ≢ terminated
  unfolding init
  not_terminated c' e = elim (Option-cases (parse c'.selected_config_path)) [
    | inl p ↦ λ t. absurd (ground (arith, e, p, t))
    | inr (json, p) ↦ elim (Option-cases (populate_config_values json c')) [
      | inl q ↦ λ t. absurd (ground (arith, e, p, q, t))
      | inr (c'', q) ↦ λ t. absurd (ground (arith, e, p, q, t))
    ]
  ]

  nothing_selected :
      (select_config_file exists c ≡ none)
      ↔ ((exists c.etc_config_path ≡ false) × (exists c.local_config_path ≡ false))
  unfolding select_config_file
  nothing_selected = ground arith

  -- init terminates the process exactly where neither file exists.
  pub init-terminated :
      (init exists parse c ≡ terminated)
      ↔ ((exists c.etc_config_path ≡ false) × (exists c.local_config_path ≡ false))
  unfolding init
  init-terminated = elim (Option-cases (select_config_file exists c)) [
    | inl n ↦ (λ _. nothing_selected.0 n, λ _. ground (arith, n))
    | inr (c', e) ↦ (
      λ t. absurd (not_terminated c' e t),
      λ missing. absurd (ground (arith, nothing_selected.1 missing, e)),
    )
  ]
