-- ===== src/Boot/Init.antt =====
-- `init`, `initialize_kcon`, `kernel_ver_check` and `main` of src/main.rs.
use ignited.Prelude.{
  ℕ, ◌*◌, String, Bool, true, false, Option, none, some, [], ◌∷◌, ◌==◌, if◌then◌else◌,
}
use mathlib.Core.Option
use ignited.Prelude.Text.{◌⧺◌}
use ignited.Prelude.Outcome.{Outcome, ok, err, map_err}
use ignited.Prelude.Run.{give}
use ignited.Logging.{KConsole, debug, print_message_ln}
use ignited.Logging.Host.{on_tree}
use ignited.Config.Runtime.{RuntimeConfig, InitramfsMetadata, get_mount_timeout, try_from_path}
use ignited.Config.Cmdline.{CmdlineArgs}
use ignited.Config.Current.{parse_current}
use ignited.Module.Aliases.{GlobCrate, ModAliases}
use ignited.Module.Aliases.Reading.{try_from_file}
use ignited.Module.Loading.{Loader}
use ignited.Module.Loading.Steps
use ignited.Module.Loading.Steps.{load_modules}
use ignited.Mount.Source.{UuidCrate}
use ignited.Mount.Options.{FlagsCrate, nosuid, nodev, strictatime}
use ignited.Mount.Mounting.{Mount, sysfs, proc, efivarfs, tmpfs, at_root, mount}
use ignited.Time
use ignited.Time.{InitramfsTimer}
use ignited.Util.Pivot.{make_shutdown_pivot_dir}
use ignited.Threads.{ThreadHandle, join_now}
use ignited.Threads.Udev.{listen}
use ignited.Threads.Sysfs.{SysfsWalker, walk, stop_walker}
use ignited.Vconsole.{setup_vconsole}
use ignited.Boot.Exit.{Exit, Action, ◌>>=◌, ◌>>◌, bail, pure, running}
use ignited.Boot.Evloop.{evloop}
use ignited.Boot.World.{World, kernel, environment, State}
use ignited.Boot.Target.{exec_target_init}

unfoldable pub kernel_ver_check : String → InitramfsMetadata → Outcome (Unit {0})
kernel_ver_check cur meta =
    if cur == meta.kernel_ver
    then ok tt
    else err (
        "Linux kernel version mismatch. This initramfs image was built for version "
        ⧺ meta.kernel_ver ⧺ " and it is incompatible with the currently running version " ⧺ cur
        ⧺ ". Please rebuild the ignited image for kernel " ⧺ cur ⧺ ".")

module _ {u : UuidCrate} {f : FlagsCrate} {g : GlobCrate} (w : World u f g) where
  abbrev pub Args : Type 0
  Args = CmdlineArgs u.Uuid f.Flags

  abbrev pub mount_step : Mount f.Flags → Action (State w) (Unit {0})
  mount_step m = bail 3 (on_tree (mount f (kernel w) m))

  abbrev pub run_tmpfs : Mount f.Flags
  run_tmpfs = tmpfs (record {
    source = "run";
    target = at_root ("run" ∷ []);
    flags = f.union (f.union (f.of nosuid) (f.of nodev)) (f.of strictatime);
    options = some "mode=755";
  })

  -- The mounts; the result is whether the program was booted in EFI mode.
  unfoldable pub mount_all : Action (State w) Bool
  unfolding mount
  mount_all = do
    mount_step sysfs
    mount_step proc
    mount_step run_tmpfs
    efi_mode ← (λ h. pure (w.efi_exists h.tree) h)
    (if efi_mode then mount_step efivarfs else pure tt)
    pure efi_mode

  abbrev pub set_path_step : Action (State w) (Unit {0})
  set_path_step h = pure tt (record h { tree = w.set_path "/usr/sbin:/usr/bin:/sbin:/bin" h.tree })

  -- The answer of a reading call.
  abbrev pub reads : {A : Type 0} → ℕ → (w.Tree → Outcome A) → Action (State w) A
  reads code read = bail code (λ h. (read h.tree, h))

  abbrev pub pivoted : State w → Option (Outcome (Unit {0}) × ℕ) → Exit (Unit {0}) × State w
  pivoted h none = (running, h)
  pivoted h (some (o, calls)) =
      bail 7 (λ h'. (o, h')) (record h { tree = w.pivot_left h.tree calls })

  abbrev pub pivot_step : Action (State w) (Unit {0})
  pivot_step h = pivoted h (make_shutdown_pivot_dir (w.pivot_answer h.tree) w.fuel 0)

  -- What is known when the arguments are read.
  pub record Prepared : Type 0 where
    pub efi_mode : Bool
    pub config : RuntimeConfig
    pub aliases : ModAliases g.GlobPattern

  -- Up to the reading of the arguments, behind which the level of the console is set.
  unfoldable pub prepare : Action (State w) Prepared
  unfolding mount_all try_from_path kernel_ver_check try_from_file make_shutdown_pivot_dir
  prepare = do
    efi_mode ← mount_all
    set_path_step
    config ← reads 4 (λ t. try_from_path w.toml (w.config_text t))
    reads 5 (λ t. kernel_ver_check (w.booted_kernel_ver t) config.metadata)
    aliases ← reads 6 (λ t. try_from_file g w.new_pattern (w.alias_lines t))
    pivot_step
    pure (record { efi_mode = efi_mode; config = config; aliases = aliases })

  abbrev console_left : {A : Type 0} → State w → Outcome A × KConsole → Outcome A × State w
  console_left h (o, kcon) = (o, record h { kcon = kcon })

  abbrev pub parse_step : Action (State w) Args
  parse_step = bail 8 (λ h. console_left h (parse_current u f (environment w h.tree) h.kcon))

  abbrev pub log_step : (KConsole → KConsole) → Action (State w) (Unit {0})
  log_step say h = pure tt (record h { kcon = say h.kcon })

  abbrev mode_text : Bool → String
  mode_text true = "booted in efi mode"
  mode_text false = "booted in bios/legacy mode"

  abbrev pub loaded : Option Loader → Action (State w) ℕ
  loaded none h = (running, h)
  loaded (some st) h = pure Steps.initial.loader.next_wg h

  -- The forced modules; the result is the group to wait for.
  unfoldable pub load_step : RuntimeConfig → Action (State w) ℕ
  unfolding load_modules
  load_step config = do
    bail 11 (give (if w.lock_poisoned then err "unable to lock module-loading" else ok tt))
    loaded (load_modules config.metadata w.fuel config.ignited.module_force Steps.initial.loader)

  -- `Duration::from_secs`, in nanoseconds.
  abbrev pub timeout_of : RuntimeConfig → Option ℕ
  timeout_of config = Option.map (λ n. n * 1000000000) (get_mount_timeout config.ignited)

  abbrev looped : Option (Outcome (Unit {0})) → Action (State w) (Unit {0})
  looped none h = (running, h)
  looped (some o) h = bail 14 (give o) h

  abbrev pub loop_step : RuntimeConfig → Action (State w) (Unit {0})
  loop_step config = looped (evloop w.start_instant (timeout_of config) w.start_instant w.polls)

  abbrev pub wait_step : ℕ → Action (State w) (Unit {0})
  wait_step wg h = if w.is_released wg then pure tt h else (running, h)

  -- What `init` does behind the start of the threads.
  unfoldable pub finish_init :
      InitramfsTimer
      → RuntimeConfig
      → Args
      → ThreadHandle
      → ℕ
      → SysfsWalker
      → Action (State w) (Unit {0})
  unfolding evloop get_mount_timeout join_now stop_walker exec_target_init
  finish_init timer config args udev wg walker = do
    loop_step config
    log_step (join_now w.message_text udev)
    log_step (stop_walker w.message_text walker)
    wait_step wg
    exec_target_init w timer args

  abbrev pub setup_error : String → String → String
  setup_error what io = "error while setting up main " ⧺ what ⧺ ": " ⧺ io

  -- From the event loop on.
  unfoldable pub start_init : InitramfsTimer → Prepared → Args → Action (State w) (Unit {0})
  unfolding listen load_step setup_vconsole walk finish_init Time.log
  start_init timer p args = do
    log_step (Time.log w.message_text timer)
    log_step (λ kcon. print_message_ln kcon debug (mode_text p.efi_mode))
    reads 9 (λ t. map_err (setup_error "event loop") (w.new_poll t))
    reads 9 (λ t. map_err (setup_error "waker") (w.new_waker t))
    udev ← bail 10 (give (listen w.closed_text w.udev_console w.udev_poll w.udev_waker w.wake_udev))
    wg ← load_step p.config
    bail 12 (setup_vconsole w.fonts w.keymaps p.config)
    walker ← bail 13 (give (walk w.closed_text w.wake_modaliases w.wake_block))
    finish_init timer p.config args udev wg walker

  unfoldable pub init : InitramfsTimer → Action (State w) (Unit {0})
  unfolding prepare parse_current start_init
  init timer = do p ← prepare; args ← parse_step; start_init timer p args
