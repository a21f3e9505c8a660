-- ===== src/Logging/Throttling.antt =====
-- `KConsole::disable_throttling_on_verbose` of src/early_logging/mod.rs. What the kernel answers to
-- the reading, opening and writing of the file is a parameter; an error is its text.
use ignited.Prelude.{
  String, ◌≡◌, ◌≢◌, refl, ◌↔◌, Bool, true, false, arith, ◌==◌, eq_iff, if◌then◌else◌,
}
use ignited.Prelude.Text.{◌⧺◌}
use ignited.Prelude.Outcome.{Outcome, ok, err, panic, map_err}
use ignited.Logging.{VerbosityLevel, debug, KConsole}

abbrev pub sys_kmsg_file : String
sys_kmsg_file = "/proc/sys/kernel/printk_devkmsg"

abbrev pub no_throttle_enabled : String
no_throttle_enabled = "on\n"

-- What the three calls on the file return.
pub record SysctlAnswers : Type 0 where
  pub read : Outcome String
  pub open_for_write : Outcome (Unit {0})
  pub write_all : Outcome (Unit {0})

-- `self.current_level != VerbosityLevel::Debug`
abbrev pub is_debug : VerbosityLevel → Bool
is_debug debug = true
is_debug _ = false

abbrev while_reading : String → String
while_reading io = "error while reading " ⧺ sys_kmsg_file ⧺ ": " ⧺ io

abbrev while_writing : String → String
while_writing io = "error while writing " ⧺ sys_kmsg_file ⧺ ": " ⧺ io

-- The result, and whether the file was written.
unfoldable pub disable_throttling_on_verbose : KConsole → SysctlAnswers → Outcome (Unit {0}) × Bool
disable_throttling_on_verbose kcon sys =
    if is_debug kcon.current_level
    then elim sys.read [
      | ok found ↦
          if found == no_throttle_enabled then (ok tt, false) else elim sys.open_for_write [
            | ok u ↦ (map_err while_writing sys.write_all, true)
            | err io ↦ (err (while_writing io), false)
            | panic ↦ (panic, false)
          ]
      | err io ↦ (err (while_reading io), false)
      | panic ↦ (panic, false)
    ]
    else (ok tt, false)

-- The file is written on one path only.
found_on_write :
    (kcon : KConsole) (r : Outcome String) (o w : Outcome (Unit {0}))
    → (disable_throttling_on_verbose kcon
        (record { read = r; open_for_write = o; write_all = w })).1
      ≡ true
    → (kcon.current_level ≡ debug)
      × (found : String) × (r ≡ ok found)
      × (found ≢ no_throttle_enabled)
      × (o ≡ ok tt)
unfolding disable_throttling_on_verbose
found_on_write kcon (ok found) (ok u) w h =
    (ground arith, found, refl, ground (arith, eq_iff found no_throttle_enabled), refl)
found_on_write kcon (ok found) o w h = ground arith
found_on_write kcon (err io) o w h = ground arith
found_on_write kcon panic o w h = ground arith

-- The setting is written exactly when the level is debug, the file was read, did not hold the
-- setting yet, and could be opened for writing.
pub disable_throttling_on_verbose_writes :
    (kcon : KConsole) (sys : SysctlAnswers)
    → ((disable_throttling_on_verbose kcon sys).1 ≡ true) ↔ (
        (kcon.current_level ≡ debug)
        × (found : String) × (sys.read ≡ ok found)
        × (found ≢ no_throttle_enabled)
        × (sys.open_for_write ≡ ok tt))
unfolding disable_throttling_on_verbose
disable_throttling_on_verbose_writes kcon sys = (
  found_on_write kcon sys.read sys.open_for_write sys.write_all,
  λ (at_debug, found, was_read, other, opened). ground (arith, eq_iff found no_throttle_enabled),
)
