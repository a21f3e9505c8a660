-- ===== src/Config/Runtime.antt =====
-- `RuntimeConfig` of src/config.rs, the parsed /etc/ignited/engine.toml: its three sections with their
-- accessors. Parsing the text is the `toml` and `serde` crates' work.
use ignited.Prelude.{ℕ, zero, suc, ◌<◌, String, Bool, ◌≡◌, ◌↔◌, Option, none, some, List, arith}
use ignited.Prelude.Assoc.{Map}
use ignited.Prelude.Text.{◌⧺◌}
use ignited.Prelude.Outcome.{Outcome, ok, err, panic, map_err}
use ignited.Prelude.Text.Number.{ℤ, pos, negsuc}

pub record InitramfsMetadata : Type 0 where
  pub kernel_ver : String
  pub module_builtin : List String
  pub module_deps : Map (List String)
  pub module_opts : Map String
  pub module_post_deps : Map (List String)

pub record IgnitedConfig : Type 0 where
  pub lvm : Bool
  pub mdraid : Bool
  pub module_force : List String
  pub mount_timeout : Option ℤ

pub record ConsoleConfig : Type 0 where
  pub utf : Bool
  pub font_file : Option String
  pub font_map_file : Option String
  pub font_unicode_file : Option String
  pub keymap_file : Option String

pub record RuntimeConfig : Type 0 where
  pub metadata : InitramfsMetadata
  pub ignited : IgnitedConfig
  pub console : Option ConsoleConfig

-- `filter(|m| *m > 0).map(|m| m as u64)`
abbrev positive : ℤ → Option ℕ
positive (pos zero) = none
positive (pos (suc n)) = some (suc n)
positive (negsuc n) = none

abbrev positive_of : Option ℤ → Option ℕ
positive_of none = none
positive_of (some m) = positive m

unfoldable pub get_mount_timeout : IgnitedConfig → Option ℕ
get_mount_timeout c = positive_of c.mount_timeout

positive_iff : (m : Option ℤ) (n : ℕ) → (positive_of m ≡ some n) ↔ ((m ≡ some (pos n)) × (0 < n))
positive_iff none n = ground arith
positive_iff (some (pos zero)) n = ground arith
positive_iff (some (pos (suc k))) n = ground arith
positive_iff (some (negsuc k)) n = ground arith

-- There is a timeout of `n` seconds exactly if the key is set to `n` and `n` is above zero: as
-- documented, zero, a negative number and a missing key all mean no timeout.
pub get_mount_timeout_iff :
    (c : IgnitedConfig) (n : ℕ)
    → (get_mount_timeout c ≡ some n) ↔ ((c.mount_timeout ≡ some (pos n)) × (0 < n))
unfolding get_mount_timeout
get_mount_timeout_iff c n = positive_iff c.mount_timeout n

-- `TryFrom` of a path, the parser of the `toml` crate being a parameter, as is what the file reads as.
unfoldable pub try_from_path :
    (String → Outcome RuntimeConfig) → Outcome String → Outcome RuntimeConfig
try_from_path toml (ok text) = map_err (λ de. "error while reading config: " ⧺ de) (toml text)
try_from_path toml (err io) = err ("error while reading config: " ⧺ io)
try_from_path toml panic = panic
