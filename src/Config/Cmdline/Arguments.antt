-- ===== src/Config/Cmdline/Arguments.antt =====
-- What one argument of the command line says, read off its key and value alone.
use ignited.Prelude.{String, Bool, true, false, Option, none, some, find_map, if◌then◌else◌}
use ignited.Prelude.Text.{◌⧺◌, has}
use ignited.Prelude.Outcome.{Outcome, ok, err, panic}
use ignited.Logging.{VerbosityLevel, debug, try_from}
use ignited.Mount.Source.{UuidCrate, PartitionSourceBuilder, parse}
use ignited.Config.Cmdline.{split_arg}
use ignited.Config.Cmdline.Handlers.{words_of}
use ignited.Config.Cmdline.Keys.{
  Key, key_of, ignited_log, booster_log, booster_debug, quiet, root, resume, init, rootfstype,
  rootflags, ro, rw_key, luks_options, luks_name, luks_uuid,
}

-- The value of an argument with the given key.
abbrev pub level_in : Bool → Option String → Option VerbosityLevel
level_in compat none = none
level_in compat (some value) = find_map try_from (words_of compat value)

abbrev pub level_by : Key → Option String → Option VerbosityLevel
level_by ignited_log value = level_in false value
level_by booster_log value = level_in true value
level_by booster_debug value = some debug
level_by quiet value = some VerbosityLevel.err
level_by _ value = none

-- A path without a null character.
abbrev pub valid_path : Option String → Option String
valid_path none = none
valid_path (some path) = if has 0 path then none else some path

abbrev pub init_by : Key → Option String → Option String
init_by init value = valid_path value
init_by _ value = none

abbrev pub fstype_by : Key → Option String → Option String
fstype_by rootfstype value = value
fstype_by _ value = none

abbrev pub mode_by : Key → Option Bool
mode_by ro = some false
mode_by rw_key = some true
mode_by _ = none

abbrev pub flags_by : Key → Option String → Option String
flags_by rootflags value = value
flags_by _ value = none

module _ (u : UuidCrate) where
  abbrev pub source_in : Option String → Option (PartitionSourceBuilder u.Uuid)
  source_in none = none
  source_in (some value) = parse u value

  abbrev pub root_by : Key → Option String → Option (PartitionSourceBuilder u.Uuid)
  root_by root value = source_in value
  root_by _ value = none

  abbrev pub resume_by : Key → Option String → Option (PartitionSourceBuilder u.Uuid)
  resume_by resume value = source_in value
  resume_by _ value = none

  abbrev pub source_verdict : String → Option String → Outcome (Unit {0})
  source_verdict key none = ok tt
  source_verdict key (some value) = elim (parse u value) [
    | none ↦ err ("unable to parse " ⧺ key ⧺ " key")
    | some src ↦ ok tt
  ]

  abbrev pub init_verdict : Option String → Outcome (Unit {0})
  init_verdict none = ok tt
  init_verdict (some path) =
      if has 0 path then err ("invalid init path " ⧺ path ⧺ ": path contains null value") else ok tt

  -- Which arguments end the parsing.
  abbrev pub verdict_by : Key → Option String → Outcome (Unit {0})
  verdict_by root value = source_verdict "root" value
  verdict_by resume value = source_verdict "resume" value
  verdict_by init value = init_verdict value
  verdict_by luks_options value = panic
  verdict_by luks_name value = panic
  verdict_by luks_uuid value = panic
  verdict_by _ value = ok tt

-- The same of a whole argument.
abbrev pub by {ℓ} : {A : Type ℓ} → (Key → Option String → A) → String → A
by g arg = let (k, v) = split_arg arg in g (key_of k) v
