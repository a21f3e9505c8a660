-- ===== src/Logging.antt =====
-- src/early_logging/mod.rs: verbosity levels and the console on /dev/kmsg. The device is the list of
-- texts handed to its `write`; the result of a write is ignored there (`.ok()`), so it is not kept.
pub mod Buffer
pub mod Levels
pub mod Visible
pub mod Throttling
pub mod Host
pub mod Device
mod Tests
use ignited.Prelude.{
  ℕ, String, Bool, Option, none, some, List, [], ◌∷◌, ◌++◌, ◌||◌, ◌==◌, leb, if◌then◌else◌,
}
use ignited.Prelude.Text.{◌⧺◌}
use ignited.Prelude.Text.Number.{show}

abbrev pub program_name : String
program_name = "ignited"

pub data VerbosityLevel : Type 0 where
  debug info notice warn err crit : VerbosityLevel

-- `level as u8`, which is also what the derived order compares.
abbrev pub rank : VerbosityLevel → ℕ
rank debug = 7
rank info = 6
rank notice = 5
rank warn = 4
rank err = 3
rank crit = 2

unfoldable pub try_from : String → Option VerbosityLevel
try_from level =
    if level == "debug"
    then some debug
    else if level == "info"
    then some info
    else if level == "notice"
    then some notice
    else if level == "warn" || level == "warning"
    then some warn
    else if level == "err" || level == "error"
    then some err
    else none

abbrev pub default_level : VerbosityLevel
default_level = info

pub record KConsole : Type 0 where
  pub handle : List String
  pub current_level : VerbosityLevel

-- `req_level <= self.current_level`
abbrev pub is_visible : VerbosityLevel → VerbosityLevel → Bool
is_visible threshold level = leb (rank level) (rank threshold)

-- The text of one entry: `<level>ignited: args`, and a line break.
unfoldable pub entry_line : VerbosityLevel → String → String
entry_line level args = "<" ⧺ show (rank level) ⧺ ">" ⧺ program_name ⧺ ": " ⧺ args ⧺ "\n"

unfoldable pub println : KConsole → VerbosityLevel → String → KConsole
println kcon level args =
    if is_visible kcon.current_level level
    then record kcon { handle = kcon.handle ++ entry_line level args ∷ [] }
    else kcon

unfoldable pub change_verbosity : KConsole → VerbosityLevel → KConsole
change_verbosity kcon level = record kcon { current_level = level }

-- `_print_message_ln`, which the macros `kdebug!` to `kcrit!` call with their level.
unfoldable pub print_message_ln : KConsole → VerbosityLevel → String → KConsole
unfolding println
print_message_ln kcon level args = println kcon level args
