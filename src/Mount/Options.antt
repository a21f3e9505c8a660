-- ===== src/Mount/Options.antt =====
-- `RootOptsBuilder` and `RootOpts` of src/mount.rs. The `MsFlags` of the `nix` crate are a parameter.
mod Flags
pub use Flags.*
pub mod Words
pub mod Effect
pub mod Frame
pub mod Building
use ignited.Prelude.{
  ℕ, String, Bool, true, false, not, Option, none, some, List, [], ◌∷◌, ◌==◌, or_else,
  if◌then◌else◌,
}
use ignited.Prelude.Text.{◌⧺◌, split}
use ignited.Prelude.Outcome.{Outcome, ok, err, panic}
use ignited.Mount.Options.Flags.{
  FlagsCrate, MsFlag, dirsync, lazytime, noatime, nodev, nodiratime, noexec, nosuid, relatime,
  silent, strictatime, synchronous, rdonly,
}
use ignited.Mount.Source.{PartitionSourceBuilder}

pub record RootOptsBuilder (Uuid Flags : Type 0) : Type 0 where
  pub source : Option (PartitionSourceBuilder Uuid)
  pub fstype : Option String
  pub is_rw : Bool
  pub flags : Flags
  pub options : Option String

pub record RootOpts (Flags : Type 0) : Type 0 where
  pub source : String
  pub fstype : String
  pub flags : Flags
  pub options : Option String

-- What one word of `rootflags=` does; `nosymfollow` does nothing.
pub data OptEdit : Type 0 where
  insert remove : MsFlag → OptEdit
  ignore : OptEdit
  append : OptEdit

-- The arms of the match in `_add_opts`.
unfoldable pub edit_of : String → OptEdit
edit_of opt =
    if opt == "dirsync"
    then insert dirsync
    else if opt == "nolazytime"
    then remove lazytime
    else if opt == "lazytime"
    then insert lazytime
    else if opt == "noatime"
    then insert noatime
    else if opt == "atime"
    then remove noatime
    else if opt == "nodev"
    then insert nodev
    else if opt == "dev"
    then remove nodev
    else if opt == "nodiratime"
    then insert nodiratime
    else if opt == "diratime"
    then remove nodiratime
    else if opt == "noexec"
    then insert noexec
    else if opt == "exec"
    then remove noexec
    else if opt == "nosuid"
    then insert nosuid
    else if opt == "suid"
    then remove nosuid
    else if opt == "norelatime"
    then remove relatime
    else if opt == "relatime"
    then insert relatime
    else if opt == "silent"
    then insert silent
    else if opt == "nostrictatime"
    then remove strictatime
    else if opt == "strictatime"
    then insert strictatime
    else if opt == "async"
    then remove synchronous
    else if opt == "sync"
    then insert synchronous
    else if opt == "nosymfollow"
    then ignore
    else append

-- `options.push(','); options.push_str(option)`, or the first option.
abbrev pub push_option : Option String → String → Option String
push_option none opt = some opt
push_option (some options) opt = some (options ⧺ "," ⧺ opt)

-- `PartitionSourceBuilder::build` is `todo!`.
unfoldable pub build_source : {Uuid : Type 0} → PartitionSourceBuilder Uuid → Outcome String
build_source src = panic

module _ (Uuid : Type 0) (f : FlagsCrate) where
  abbrev pub Builder : Type 0
  Builder = RootOptsBuilder Uuid f.Flags

  -- `RootOptsBuilder::default`, which `RootOpts::builder` returns.
  unfoldable pub builder : RootOptsBuilder Uuid f.Flags
  builder = record { source = none; fstype = none; is_rw = false; flags = f.empty; options = none }

module _ {Uuid : Type 0} (f : FlagsCrate) where
  abbrev apply_edit : OptEdit → String → Builder Uuid f → Builder Uuid f
  apply_edit (insert flag) opt b = record b { flags = f.insert b.flags (f.of flag) }
  apply_edit (remove flag) opt b = record b { flags = f.remove b.flags (f.of flag) }
  apply_edit ignore opt b = b
  apply_edit append opt b = record b { options = push_option b.options opt }

  -- One round of the loop of `_add_opts`.
  unfoldable pub add_opt : Builder Uuid f → String → Builder Uuid f
  add_opt b opt = apply_edit (edit_of opt) opt b

  unfoldable pub add_each : Builder Uuid f → List String → Builder Uuid f
  unfolding add_opt
  add_each b [] = b
  add_each b (opt ∷ opts) = add_each (add_opt b opt) opts

  -- `add_opts` with `_add_opts`
  unfoldable pub add_opts : Builder Uuid f → String → Builder Uuid f
  unfolding add_each
  add_opts b opts = add_each b (split b',' opts)

module _ {Uuid Flags : Type 0} where
  -- `get_or_insert`: the first value stays.
  unfoldable pub source :
      RootOptsBuilder Uuid Flags → PartitionSourceBuilder Uuid → RootOptsBuilder Uuid Flags
  source b src = record b { source = or_else b.source (some src) }

  unfoldable pub get_source : RootOptsBuilder Uuid Flags → Option (PartitionSourceBuilder Uuid)
  get_source b = b.source

  unfoldable pub fstype : RootOptsBuilder Uuid Flags → String → RootOptsBuilder Uuid Flags
  fstype b name = record b { fstype = or_else b.fstype (some name) }

  unfoldable pub ro : RootOptsBuilder Uuid Flags → RootOptsBuilder Uuid Flags
  ro b = record b { is_rw = false }

  unfoldable pub rw_mode : RootOptsBuilder Uuid Flags → RootOptsBuilder Uuid Flags
  rw_mode b = record b { is_rw = true }

-- `Result<RootOpts, RootOptsBuilder>` of `try_build`, and its panic.
pub data BuildResult (Uuid Flags : Type 0) : Type 0 where
  built : RootOpts Flags → BuildResult Uuid Flags
  incomplete : RootOptsBuilder Uuid Flags → BuildResult Uuid Flags
  panicked : BuildResult Uuid Flags

module _ {Uuid : Type 0} (f : FlagsCrate) where
  -- The end of `try_build` and of `build`, from the device path.
  unfoldable pub finish_build : Builder Uuid f → String → String → RootOpts f.Flags
  finish_build b device name = record {
    source = device;
    fstype = name;
    flags = f.set b.flags (f.of rdonly) (not b.is_rw);
    options = b.options;
  }

  -- `try_build`: a missing source or type gives the builder back.
  unfoldable pub try_build : Builder Uuid f → BuildResult Uuid f.Flags
  unfolding finish_build build_source
  try_build b = elim b.source [
    | none ↦ incomplete b
    | some src ↦ elim b.fstype [
      | none ↦ incomplete b
      | some name ↦ elim (build_source src) [
        | ok device ↦ built (finish_build b device name)
        | err e ↦ panicked
        | panic ↦ panicked
      ]
    ]
  ]

  -- `build`: a missing source or type is a failed `unwrap`.
  unfoldable pub build : Builder Uuid f → Outcome (RootOpts f.Flags)
  unfolding finish_build build_source
  build b = elim b.source [
    | none ↦ panic
    | some src ↦ elim (build_source src) [
      | ok device ↦ elim b.fstype [ none ↦ panic | some name ↦ ok (finish_build b device name) ]
      | err e ↦ panic
      | panic ↦ panic
    ]
  ]
