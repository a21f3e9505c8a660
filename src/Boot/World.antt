-- ===== src/Boot/World.antt =====
-- What src/main.rs is given by the system: the calls on its state, and what it reads of it.
use ignited.Prelude.{ℕ, String, Bool, Option, List}
use ignited.Prelude.Outcome.{Outcome}
use ignited.Prelude.Run.{Run}
use ignited.Logging.Host.{Host}
use ignited.Config.Runtime.{RuntimeConfig}
use ignited.Config.Current.{Environment}
use ignited.Module.Aliases.{GlobCrate}
use ignited.Mount.Source.{UuidCrate}
use ignited.Mount.Options.{FlagsCrate}
use ignited.Mount.Mounting.{FilePath, Made, MountCall, Kernel}
use ignited.Mount.Efi.{get_current}
use ignited.Logging.Throttling.{SysctlAnswers}
use ignited.Mount.Moving.{Mover}
use ignited.Time.{TimeSpec, Destination}
use ignited.Util.Sanity.{Machine}
use ignited.Util.Ramfs.{FileStat, Files}
use ignited.Util.Systemd.{Links}
use ignited.Util.Shell.{Exec}
use ignited.Vconsole.Font.{FontCalls}
use ignited.Vconsole.Keymap.{KeymapCalls}
use ignited.Boot.Evloop.{PollAnswer}

pub record World (u : UuidCrate) (f : FlagsCrate) (g : GlobCrate) : Type 1 where
  pub Tree : Type 0
  pub mkdir : FilePath → Tree → Made × Tree
  pub is_dir : FilePath → Tree → Bool
  pub mount_at : MountCall f.Flags → Tree → Bool × Tree
  pub mover : Mover Tree
  pub lstat : FilePath → Tree → Outcome FileStat
  pub read_dir : FilePath → Tree → Outcome (List (Option String))
  pub remove_dir : FilePath → Tree → Outcome (Unit {0}) × Tree
  pub remove_file : FilePath → Tree → Outcome (Unit {0}) × Tree
  pub realtime : Outcome TimeSpec
  pub monotonic : Outcome TimeSpec
  pub machine : Tree → Machine
  pub links : Tree → Links
  pub open_kmsg : Tree → Outcome (Unit {0})
  pub efi_exists : Tree → Bool
  pub set_path : String → Tree → Tree
  -- The text of /etc/ignited/engine.toml with the parser of the `toml` crate, and the lines of the
  -- alias file.
  pub config_text : Tree → Outcome String
  pub toml : String → Outcome RuntimeConfig
  pub booted_kernel_ver : Tree → String
  pub alias_lines : Tree → Outcome (List (Outcome String))
  pub new_pattern : String → Outcome g.GlobPattern
  -- The answers of `mkdir` for /run/initramfs, and the state behind as many calls.
  pub pivot_answer : Tree → ℕ → Made
  pub pivot_left : Tree → ℕ → Tree
  -- /proc/cmdline, the type of a root partition, the bytes of the EFI variable, and the log setting.
  pub cmdline : Tree → Outcome String
  pub root_type : u.Uuid
  pub root_type_text : String
  pub efi_variable : Tree → Outcome (List ℕ)
  pub sysctl : Tree → SysctlAnswers
  -- The event loop and the threads.
  pub new_poll : Tree → Outcome (Unit {0})
  pub new_waker : Tree → Outcome (Unit {0})
  pub closed_text : String
  pub udev_console : Bool
  pub udev_poll : Outcome (Unit {0})
  pub udev_waker : Outcome (Unit {0})
  pub wake_udev : Outcome (Unit {0})
  pub wake_modaliases : Outcome (Unit {0})
  pub wake_block : Outcome (Unit {0})
  pub lock_poisoned : Bool
  -- Whether all clones of a group are dropped at some time.
  pub is_released : ℕ → Bool
  pub start_instant : ℕ
  pub polls : List (PollAnswer × ℕ)
  pub fonts : FontCalls Tree
  pub keymaps : KeymapCalls Tree
  -- The hand-over.
  pub chdir : String → Tree → Bool × Tree
  pub chroot : String → Tree → Bool × Tree
  pub create_memfd : Run Tree (ℕ × Destination)
  pub close_memfd : ℕ → Destination → Tree → Tree
  pub execv : String → List String → Tree → Bool
  pub sync : Tree → Tree
  -- What the `precisej` crate prints for a `PrintableErrno` with a message, its errno included.
  pub message_text : String → String
  -- What it prints for an `ExitError`, from its code and its message and, for the
  -- errno, the state that the failed call left.
  pub error_text : ℕ → String → Tree → String
  pub enoent_text : String
  pub exec_busybox : Exec
  pub exec_toybox : Exec
  -- For the recursions of `delete_ramfs`, `make_shutdown_pivot_dir` and `load_modules`.
  pub fuel : ℕ

module _ {u : UuidCrate} {f : FlagsCrate} {g : GlobCrate} (w : World u f g) where
  abbrev pub kernel : Kernel f.Flags
  kernel = record { Tree = w.Tree; mkdir = w.mkdir; is_dir = w.is_dir; mount_at = w.mount_at }

  abbrev pub files : Files
  files = record {
    Tree = w.Tree;
    lstat = w.lstat;
    read_dir = w.read_dir;
    remove_dir = w.remove_dir;
    remove_file = w.remove_file;
  }

  abbrev pub State : Type 0
  State = Host w.Tree

  -- What the command line is read with.
  abbrev pub environment : w.Tree → Environment u.Uuid
  environment t = record {
    cmdline = w.cmdline t;
    root_type = w.root_type;
    root_type_text = w.root_type_text;
    current_efi = get_current u (w.efi_variable t);
    sysctl = w.sysctl t;
    message_text = w.message_text;
  }
