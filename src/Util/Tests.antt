-- ===== src/Util/Tests.antt =====
-- Runs of the helpers of src/util.rs.
use mathlib.Core.Path.{subst}
use ignited.Prelude.{
  ℕ, ltb, ◌+◌, String, Bool, true, false, ◌≡◌, ◌↔◌, refl, some, none, List, [], ◌∷◌, ◌++◌, ◌==◌,
  All, if◌then◌else◌,
}
use ignited.Prelude.Outcome.{Outcome, ok, ok-injective}
use ignited.Logging.{VerbosityLevel, KConsole, crit, entry_line, print_message_ln, println}
use ignited.Mount.Mounting.{FilePath, Made, made, enoent}
use ignited.Util.Sanity.{
  Machine, full_sanity_check, IsInitramfs, full_sanity_check_iff, ramfs_magic,
}
use ignited.Util.Ramfs.{Files, IsPlain, SkipsDots, delete_ramfs, delete_ramfs-Untouched}
use ignited.Util.Systemd.{Links, LeadsToSystemd, is_systemd_compatible, is_systemd_compatible_iff}
use ignited.Util.Pivot.{make_shutdown_pivot_dir, make_shutdown_pivot_dir_loops}
use ignited.Util.Shell.{
  Exec, missing, failed, returned, busybox, toybox, complaint, spawn_emergency_shell,
  spawn_emergency_shell_lines,
}

-- The new root is device 2, all else device 1.
abbrev machine : Machine
machine = record {
  pid = 1;
  exists = λ p. true;
  stat_dev = λ p. if p == "/system_root" then ok 2 else ok 1;
  statfs_type = λ p. ok ramfs_magic;
}

full_sanity_check_iff_example : (full_sanity_check machine ≡ ok 1) ↔ IsInitramfs machine 1
full_sanity_check_iff_example = full_sanity_check_iff machine 1

machine_passes : full_sanity_check machine ≡ ok 1
unfolding full_sanity_check
machine_passes = refl

-- Every path is a directory with two entries; the tree is the number of removals.
abbrev files : Files
files = record {
  Tree = ℕ;
  lstat = λ p t. ok (record { st_dev = 1; st_mode = 0x41ed });
  read_dir = λ p t. ok (some "init" ∷ none ∷ some "etc" ∷ []);
  remove_dir = λ p t. (ok tt, t + 1);
  remove_file = λ p t. (ok tt, t + 1);
}

files-SkipsDots : SkipsDots files
files-SkipsDots = record {
  plain = λ p t es h. subst (All (IsPlain files)) (ok-injective h) (refl, (tt, (refl, tt)));
}

delete_ramfs-Untouched_example :
    (o : Outcome (Unit {0})) × (delete_ramfs files 1 machine 0 ≡ some (o, 0))
delete_ramfs-Untouched_example = delete_ramfs-Untouched files files-SkipsDots 0 machine 0

abbrev sbin_init : FilePath
sbin_init = record { absolute = true; names = "init" ∷ "sbin" ∷ [] }

abbrev usr_lib_systemd : FilePath
usr_lib_systemd = record { absolute = true; names = "systemd" ∷ "systemd" ∷ "lib" ∷ "usr" ∷ [] }

abbrev is_init : List String → Bool
is_init (x ∷ y ∷ []) = x == "init"
is_init _ = false

-- The init of a distribution with systemd.
abbrev links : Links
links = record {
  read_link = λ p. if is_init p.names then some usr_lib_systemd else none;
  canonicalize = λ p. some p;
}

is_systemd_compatible_iff_example :
    (is_systemd_compatible links sbin_init ≡ true) ↔ LeadsToSystemd links sbin_init
is_systemd_compatible_iff_example = is_systemd_compatible_iff links sbin_init

not_compatible : is_systemd_compatible links sbin_init ≡ false
unfolding is_systemd_compatible
not_compatible = refl

-- The directory above is there at the third call.
abbrev third : ℕ → Made
third n = if ltb n 2 then enoent else made

make_shutdown_pivot_dir_loops_example : make_shutdown_pivot_dir (λ n. enoent) 1000 0 ≡ none
make_shutdown_pivot_dir_loops_example =
    make_shutdown_pivot_dir_loops (λ n. enoent) (λ i. refl) 1000 0

abbrev kcon : KConsole
kcon = record { handle = []; current_level = VerbosityLevel.err }

abbrev no_permission : Exec
no_permission = failed "ignited: unable to execute /bin/busybox: Permission denied"

abbrev three_lines : KConsole
three_lines = record kcon {
  handle =
      []
      ++ entry_line crit "attempting to spawn emergency shell"
        ∷ entry_line crit (complaint "No such file or directory" busybox no_permission)
        ∷ entry_line crit (complaint "No such file or directory" toybox missing)
        ∷ [];
}

no_shell :
    spawn_emergency_shell "No such file or directory" no_permission missing kcon
    ≡ returned three_lines
unfolding spawn_emergency_shell print_message_ln println
no_shell = refl

spawn_emergency_shell_lines_example : three_lines ≡ record kcon {
  handle =
      kcon.handle
      ++ entry_line crit "attempting to spawn emergency shell"
        ∷ entry_line crit (complaint "No such file or directory" busybox no_permission)
        ∷ entry_line crit (complaint "No such file or directory" toybox missing)
        ∷ [];
}
spawn_emergency_shell_lines_example =
    spawn_emergency_shell_lines "No such file or directory" no_permission missing kcon no_shell
