-- ===== src/Mount/Mounting/Tests.antt =====
-- Runs of the mounting on a tree of directories.
use ignited.Prelude.{ℕ, ◌+◌, ◌↔◌, ◌==◌, false, if◌then◌else◌, true, ◌&&◌, ◌≡◌, refl, none, [], ◌∷◌}
use ignited.Prelude.Outcome.{ok}
use ignited.Mount.Samples.{flag_functions}
use ignited.Mount.Options.{RootOpts}
use ignited.Mount.Moving.{Mover, missing_in_root, move_mount, Moved, move_mount_iff}
use ignited.Logging.{info, warn, print_message_ln}
use ignited.Logging.Host.{Host}
use ignited.Mount.Mounting.{
  FilePath, at_root, display, efivarfs, target, mkdirall, mkdirall_from, mount,
}
use ignited.Mount.Mounting.Samples.{
  Dirs, same_names, there, plain_tree, plain_tree-MkdirLaws, plain_tree-IsWritable,
}
use ignited.Mount.Mounting.Directories.{mkdirall_succeeds}
use ignited.Mount.Mounting.Calls.{IsMounted, mount-IsMounted}

-- Nothing is there but /sys.
abbrev only_sys : Dirs
only_sys a names = a && same_names ("sys" ∷ []) names

abbrev efivars : FilePath
efivars = at_root ("efivars" ∷ "efi" ∷ "firmware" ∷ "sys" ∷ [])

mkdirall_succeeds_example : (mkdirall plain_tree efivars only_sys).0 ≡ ok tt
mkdirall_succeeds_example =
    mkdirall_succeeds plain_tree plain_tree-MkdirLaws plain_tree-IsWritable efivars only_sys

efivars_mounted : (mount flag_functions plain_tree efivarfs only_sys).0 ≡ ok tt
unfolding mount mkdirall_from
efivars_mounted = refl

mount-IsMounted_example :
    IsMounted flag_functions plain_tree efivars efivarfs only_sys
      (mount flag_functions plain_tree efivarfs only_sys).1
    × (there true efivars.names (mkdirall plain_tree efivars only_sys).1 ≡ true)
unfolding target
mount-IsMounted_example =
    mount-IsMounted flag_functions plain_tree plain_tree-MkdirLaws efivarfs true "efivars"
      ("efi" ∷ "firmware" ∷ "sys" ∷ []) only_sys refl efivars_mounted

abbrev some_root : RootOpts flag_functions.Flags
some_root = record {
  source = "/dev/sda1";
  fstype = "ext4";
  flags = flag_functions.empty;
  options = none;
}

efivars_text : display efivars ≡ "/sys/firmware/efi/efivars"
unfolding display
efivars_text = refl

-- /run is not there in the new root.
abbrev mover : Mover ℕ
mover = record {
  exists = λ p t. if p == "/system_root/run" then false else true;
  detach = λ p t. (true, t + 1);
  move = λ p q t. (true, t + 100);
}

abbrev before : Host ℕ
before = record { kcon = record { handle = []; current_level = info }; tree = 0 }

abbrev after : Host ℕ
after = record {
  kcon = print_message_ln before.kcon warn (missing_in_root mover "/run");
  tree = 101;
}

move_mount_iff_example :
    (move_mount mover ("/run" ∷ "/dev" ∷ []) before ≡ (ok tt, after))
    ↔ Moved mover ("/run" ∷ "/dev" ∷ []) before after
move_mount_iff_example = move_mount_iff mover ("/run" ∷ "/dev" ∷ []) before after

both_moved : move_mount mover ("/run" ∷ "/dev" ∷ []) before ≡ (ok tt, after)
unfolding move_mount
both_moved = refl
