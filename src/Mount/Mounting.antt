-- ===== src/Mount/Mounting.antt =====
-- `Mount` of src/mount.rs: what is mounted where, and the calls that do it. The kernel's file tree is
-- a parameter with the calls that the program makes; of an error only the program's own text is kept.
pub mod Directories
pub mod Calls
pub mod Samples
mod Tests
use ignited.Prelude.{
  String, Bool, true, false, Option, none, some, List, [], ◌∷◌, ◌++◌, if◌then◌else◌,
}
use ignited.Prelude.Text.{◌⧺◌, join}
use ignited.Prelude.Outcome.{Outcome, ok, err, panic}
use ignited.Logging.{KConsole, warn, print_message_ln}
use ignited.Mount.Options.{FlagsCrate, RootOpts, MsFlag, move, nosuid, nodev, noexec}

-- A `Path`: its names, the last first.
pub record FilePath : Type 0 where
  pub absolute : Bool
  pub names : List String

reversed : List String → List String → List String
reversed done [] = done
reversed done (x ∷ xs) = reversed (x ∷ done) xs

-- `to_string_lossy`
unfoldable pub display : FilePath → String
unfolding reversed join
display p = (if p.absolute then "/" else "") ⧺ join "/" (reversed [] p.names)

abbrev pub at_root : List String → FilePath
at_root names = record { absolute = true; names = names }

-- What `mkdir` answers: ENOENT is told from the other errors.
pub data Made : Type 0 where
  made enoent refused : Made

pub record TmpfsOpts (Flags : Type 0) : Type 0 where
  pub source : String
  pub target : FilePath
  pub flags : Flags
  pub options : Option String

pub data Mount (Flags : Type 0) : Type 0 where
  dev_tmpfs dev_pts proc sysfs efivarfs : Mount Flags
  tmpfs : TmpfsOpts Flags → Mount Flags
  root : RootOpts Flags → Mount Flags

-- The arguments of `mount(2)`.
pub record MountCall (Flags : Type 0) : Type 0 where
  pub source : String
  pub target : FilePath
  pub fstype : Option String
  pub flags : Flags
  pub options : Option String

pub record Kernel (Flags : Type 0) : Type 1 where
  pub Tree : Type 0
  pub mkdir : FilePath → Tree → Made × Tree
  pub is_dir : FilePath → Tree → Bool
  pub mount_at : MountCall Flags → Tree → Bool × Tree

module _ (f : FlagsCrate) where
  unfoldable pub source_of : Mount f.Flags → String
  source_of dev_tmpfs = "dev"
  source_of dev_pts = "devpts"
  source_of proc = "proc"
  source_of sysfs = "sys"
  source_of efivarfs = "efivarfs"
  source_of (tmpfs o) = o.source
  source_of (root o) = o.source

  -- `target`; that of the root is `todo!`.
  unfoldable pub target : Mount f.Flags → Outcome FilePath
  target dev_tmpfs = ok (at_root ("dev" ∷ []))
  target dev_pts = ok (at_root ("pts" ∷ "dev" ∷ []))
  target proc = ok (at_root ("proc" ∷ []))
  target sysfs = ok (at_root ("sys" ∷ []))
  target efivarfs = ok (at_root ("efivars" ∷ "efi" ∷ "firmware" ∷ "sys" ∷ []))
  target (tmpfs o) = ok o.target
  target (root o) = panic

  unfoldable pub fstype_of : Mount f.Flags → String
  fstype_of dev_tmpfs = "devtmpfs"
  fstype_of dev_pts = "devpts"
  fstype_of proc = "proc"
  fstype_of sysfs = "sysfs"
  fstype_of efivarfs = "efivarfs"
  fstype_of (tmpfs o) = "tmpfs"
  fstype_of (root o) = o.fstype

  abbrev pub nosuid_noexec_nodev : f.Flags
  nosuid_noexec_nodev = f.union (f.union (f.of nosuid) (f.of noexec)) (f.of nodev)

  -- `flags`; those of /dev/pts are `todo!`.
  unfoldable pub flags_of : Mount f.Flags → Outcome f.Flags
  flags_of dev_tmpfs = ok (f.of nosuid)
  flags_of dev_pts = panic
  flags_of proc = ok nosuid_noexec_nodev
  flags_of sysfs = ok nosuid_noexec_nodev
  flags_of efivarfs = ok nosuid_noexec_nodev
  flags_of (tmpfs o) = ok o.flags
  flags_of (root o) = ok o.flags

  -- `options`; `flags` is read before it.
  unfoldable pub options_of : Mount f.Flags → Outcome (Option String)
  options_of dev_tmpfs = ok (some "mode=0755")
  options_of dev_pts = panic
  options_of proc = ok none
  options_of sysfs = ok none
  options_of efivarfs = ok none
  options_of (tmpfs o) = ok o.options
  options_of (root o) = ok o.options

module _ {Flags : Type 0} (k : Kernel Flags) where
  open k use {Tree, mkdir, is_dir}

  -- `Err(_) if path.is_dir()`, and the error behind it.
  abbrev pub unless_dir : FilePath → String → Tree → Outcome (Unit {0}) × Tree
  unless_dir p message t = (if is_dir p t then ok tt else err (message ⧺ display p), t)

  abbrev pub retried : FilePath → Made × Tree → Outcome (Unit {0}) × Tree
  retried p (made, t) = (ok tt, t)
  retried p (_, t) = unless_dir p "FATAL: unable to create root tree for " t

  -- Behind the call for the parent: its error, or a second `mkdir`.
  abbrev pub retry : FilePath → Outcome (Unit {0}) × Tree → Outcome (Unit {0}) × Tree
  retry p (ok u, t) = retried p (mkdir p t)
  retry p (err e, t) = (err e, t)
  retry p (panic, t) = (panic, t)

  abbrev pub first_try :
      FilePath → (Tree → Outcome (Unit {0}) × Tree) → Made × Tree → Outcome (Unit {0}) × Tree
  first_try p parents (made, t) = (ok tt, t)
  first_try p parents (enoent, t) = parents t
  first_try p parents (refused, t) = unless_dir p "FATAL: unable to create " t

  abbrev pub no_parent : FilePath → Tree → Outcome (Unit {0}) × Tree
  no_parent p t = (err ("FATAL: unable to create root tree for " ⧺ display p), t)

  -- `mkdirall`, by the names of the path.
  unfoldable pub mkdirall_from : Bool → List String → Tree → Outcome (Unit {0}) × Tree
  mkdirall_from false [] t = (ok tt, t)
  mkdirall_from true [] t = first_try (at_root []) (no_parent (at_root [])) (mkdir (at_root []) t)
  mkdirall_from absolute (x ∷ xs) t =
      let p : FilePath = record { absolute = absolute; names = x ∷ xs } in
      first_try p (λ t'. retry p (mkdirall_from absolute xs t')) (mkdir p t)

  unfoldable pub mkdirall : FilePath → Tree → Outcome (Unit {0}) × Tree
  unfolding mkdirall_from
  mkdirall p t = mkdirall_from p.absolute p.names t

module _ (f : FlagsCrate) (k : Kernel f.Flags) where
  abbrev pub call_of : FilePath → Mount f.Flags → f.Flags → Option String → MountCall f.Flags
  call_of p m flags options = record {
    source = source_of f m;
    target = p;
    fstype = some (fstype_of f m);
    flags = flags;
    options = options;
  }

  abbrev pub mounted : FilePath → Bool × k.Tree → Outcome (Unit {0}) × k.Tree
  mounted p (true, t) = (ok tt, t)
  mounted p (false, t) = (err ("unable to mount " ⧺ display p), t)

  -- The arguments are computed behind `mkdirall`.
  abbrev pub with_options :
      FilePath
      → Mount f.Flags
      → Outcome f.Flags
      → Outcome (Option String)
      → k.Tree
      → Outcome (Unit {0}) × k.Tree
  with_options p m (ok flags) (ok options) t = mounted p (k.mount_at (call_of p m flags options) t)
  with_options p m _ _ t = (panic, t)

  abbrev pub then_mount :
      FilePath → Mount f.Flags → Outcome (Unit {0}) × k.Tree → Outcome (Unit {0}) × k.Tree
  then_mount p m (ok u, t) = with_options p m (flags_of f m) (options_of f m) t
  then_mount p m (err e, t) = (err e, t)
  then_mount p m (panic, t) = (panic, t)

  unfoldable pub mount : Mount f.Flags → k.Tree → Outcome (Unit {0}) × k.Tree
  unfolding target flags_of options_of mkdirall
  mount m t = elim (target f m) [
    | ok p ↦ then_mount p m (mkdirall k p t)
    | err e ↦ (panic, t)
    | panic ↦ (panic, t)
  ]
