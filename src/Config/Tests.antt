-- ===== src/Config/Tests.antt =====
-- A configuration that is read from the local file, and the theorems on it.
use ch_cpp_utils.Base.{
  ◌≡◌, ◌↔◌, Bool, true, false, Option, some, Str, codes, str_beq, if◌then◌else◌,
}
use ch_cpp_utils.Config.{Config, Json, terminated, new_config, init}
use ch_cpp_utils.Config.Laws.{init-terminated}

abbrev local_only : Str → Bool
local_only path = str_beq path (codes "./c.json")

abbrev values : Json
values = record {
  get_bool = λ name. some (str_beq name (codes "console"));
  get_unsigned = λ name. some (if str_beq name (codes "run-for") then 5 else 6);
}

abbrev config : Config
config = new_config (codes "/etc/c.json") (codes "./c.json")

abbrev read_values : Str → Option Json
read_values path = some values

init-terminated_example :
    (init local_only read_values config ≡ terminated) ↔ ((false ≡ false) × (true ≡ false))
init-terminated_example = init-terminated local_only read_values config
