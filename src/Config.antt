-- ===== src/Config.antt =====
-- class Config of src/config.cpp. Which files exist and what the JSON library reads of the file that
-- is selected is an argument.
pub mod Laws
mod Tests
use ch_cpp_utils.Base.{
  ℕ, ◌%◌, ◌^◌, Bool, true, false, not, Option, none, some, [], Str, codes, if◌then◌else◌,
}

-- class Config; `max_rss` is `none` until it is written
pub record Config : Type 0 where
  pub etc_config_path : Str
  pub local_config_path : Str
  pub selected_config_path : Str
  pub daemon : Bool
  pub log_to_console : Bool
  pub run_for : ℕ
  pub run_forever : Bool
  pub max_rss : Option ℕ

-- What the JSON library makes of the values of a file: `none` throws, for a value that is missing or
-- of another type.
pub record Json : Type 0 where
  pub get_bool : Str → Option Bool
  pub get_unsigned : Str → Option ℕ

-- How init ends: it returns, it terminates the process, or an exception leaves it.
pub data Outcome : Type 0 where
  returned : Config → Outcome
  terminated thrown : Outcome

-- Config::Config
abbrev pub new_config : Str → Str → Config
new_config etc_config local_config = record {
  etc_config_path = etc_config;
  local_config_path = local_config;
  selected_config_path = [];
  daemon = false;
  log_to_console = false;
  run_for = 30000;
  run_forever = false;
  max_rss = none;
}

-- Config::selectConfigFile; `none` returns false
unfoldable pub select_config_file : (Str → Bool) → Config → Option Config
select_config_file exists c =
    if not (exists c.etc_config_path)
    then (if not (exists c.local_config_path)
        then none
        else some (record c { selected_config_path = c.local_config_path }))
    else some (record c { selected_config_path = c.etc_config_path })

-- A value that throws ends what reads it.
infixl 10 ◌>>=◌
abbrev ◌>>=◌ : {A B : Type 0} → Option A → (A → Option B) → Option B
none >>= f = none
some a >>= f = f a

-- Config::populateConfigValues; `none` throws. The numbers are cut to 32 and to 64 bits.
unfoldable pub populate_config_values : Json → Config → Option Config
populate_config_values json c = do
  daemon ← json.get_bool (codes "daemon")
  console ← json.get_bool (codes "console")
  run_for ← json.get_unsigned (codes "run-for")
  run_forever ← json.get_bool (codes "run-forever")
  max_rss ← json.get_unsigned (codes "max-rss")
  some (record c {
    daemon = daemon;
    log_to_console = console;
    run_for = run_for % 2 ^ 32;
    run_forever = run_forever;
    max_rss = some (max_rss % 2 ^ 64);
  })

-- Config::init, given the JSON value of each file; `none` is a file that the library does not parse
unfoldable pub init : (Str → Bool) → (Str → Option Json) → Config → Outcome
init exists parse c = elim (select_config_file exists c) [
  | none ↦ terminated
  | some c' ↦ elim (parse c'.selected_config_path) [
    | none ↦ thrown
    | some json ↦ elim (populate_config_values json c') [ none ↦ thrown | some c'' ↦ returned c'' ]
  ]
]
