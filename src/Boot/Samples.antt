-- ===== src/Boot/Samples.antt =====
-- A system for the tests, whose state is the number of calls that changed it. Its configuration is
-- missing, and everything else works.
use ignited.Prelude.{ℕ, suc, String, true, false, none, some, [], ◌∷◌, ◌==◌, if◌then◌else◌}
use ignited.Prelude.Outcome.{ok, err}
use ignited.Prelude.Text.{◌⧺◌}
use ignited.Logging.{KConsole, info}
use ignited.Module.Aliases.{GlobCrate}
use ignited.Mount.Samples.{two_uuids, flag_functions, uuid_a}
use ignited.Mount.Mounting.{made}
use ignited.Time.{Destination}
use ignited.Util.Sanity.{Machine, ramfs_magic}
use ignited.Util.Shell.{missing, failed}
use ignited.Vconsole.Font.{success}
use ignited.Boot.Evloop.{interrupted, tokens}
use ignited.Boot.World.{World, State}

abbrev pub whole_names : GlobCrate
whole_names = record { GlobPattern = String; matches = λ pattern alias. pattern == alias }

abbrev first_process : Machine
first_process = record {
  pid = 1;
  exists = λ p. true;
  stat_dev = λ p. if p == "/system_root" then ok 2 else ok 1;
  statfs_type = λ p. ok ramfs_magic;
}

abbrev pub kcon : KConsole
kcon = record { handle = []; current_level = info }

abbrev memfd : Destination
memfd = record { written = []; writes = ok tt; seeks = ok tt }

abbrev pub no_config : World two_uuids flag_functions whole_names
no_config = record {
  Tree = ℕ;
  mkdir = λ p t. (made, suc t);
  is_dir = λ p t. true;
  mount_at = λ call t. (true, suc t);
  mover = record {
    exists = λ p t. if p == "/system_root/run" then false else true;
    detach = λ p t. (true, suc t);
    move = λ p q t. (true, suc t);
  };
  lstat = λ p t. ok (record { st_dev = 1; st_mode = 0x41ed });
  read_dir = λ p t. ok (some "init" ∷ []);
  remove_dir = λ p t. (ok tt, suc t);
  remove_file = λ p t. (ok tt, suc t);
  realtime = ok (record { tv_sec = 1650000000; tv_nsec = 0 });
  monotonic = ok (record { tv_sec = 3; tv_nsec = 0 });
  machine = λ t. first_process;
  links = λ t. record { read_link = λ p. none; canonicalize = λ p. some p };
  open_kmsg = λ t. ok tt;
  efi_exists = λ t. true;
  set_path = λ path t. suc t;
  config_text = λ t. err "No such file or directory";
  toml = λ text. err "expected a table";
  booted_kernel_ver = λ t. "5.17.1";
  alias_lines = λ t. ok [];
  new_pattern = λ text. ok text;
  pivot_answer = λ t calls. made;
  pivot_left = λ t calls. suc t;
  cmdline = λ t. ok "quiet\n";
  root_type = uuid_a;
  root_type_text = "aa-01";
  efi_variable = λ t. ok [];
  sysctl = λ t. record { read = ok "off\n"; open_for_write = ok tt; write_all = ok tt };
  new_poll = λ t. ok tt;
  new_waker = λ t. ok tt;
  closed_text = "receiving on a closed channel";
  udev_console = true;
  udev_poll = ok tt;
  udev_waker = ok tt;
  wake_udev = ok tt;
  wake_modaliases = ok tt;
  wake_block = ok tt;
  lock_poisoned = false;
  is_released = λ wg. true;
  start_instant = 1000;
  polls = (interrupted, 2000) ∷ (tokens (10 ∷ []), 3000) ∷ [];
  fonts = record { setfont = λ args t. (ok success, suc t) };
  keymaps = record {
    read = λ path t. ok [];
    address = λ path t. 4096;
    open_tty = λ t. (true, suc t);
    kdskbmode = λ mode t. (true, suc t);
    kdskbent = λ ke t. (true, suc t);
    write_tty = λ bytes t. (true, suc t);
  };
  chdir = λ path t. (true, suc t);
  chroot = λ path t. (true, suc t);
  create_memfd = λ t. (ok (3, memfd), suc t);
  close_memfd = λ fd dest t. suc t;
  execv = λ path argv t. true;
  sync = λ t. suc t;
  message_text = λ message. "ignited: " ⧺ message;
  error_text = λ code message t. "ignited: " ⧺ message;
  enoent_text = "No such file or directory";
  exec_busybox = missing;
  exec_toybox = failed "ignited: unable to execute /bin/toybox: Permission denied";
  fuel = 5;
}

abbrev pub at_start : State no_config
at_start = record { kcon = kcon; tree = 0 }
