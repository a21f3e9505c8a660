-- ===== src/Boot/Target.antt =====
-- `exec_target_init` of src/main.rs: the switch to the target's root and the hand-over to its init.
use ignited.Prelude.{ℕ, String, ◌||◌, Option, none, some, List, [], ◌∷◌, ◌==◌, if◌then◌else◌}
use ignited.Prelude.Text.{◌⧺◌, split, starts_with}
use ignited.Prelude.Text.Number.{show}
use ignited.Prelude.Outcome.{Outcome}
use ignited.Prelude.Run.{printable}
use ignited.Logging.{info, print_message_ln}
use ignited.Logging.Host.{on_tree}
use ignited.Config.Cmdline.{CmdlineArgs}
use ignited.Module.Aliases.{GlobCrate}
use ignited.Mount.Source.{UuidCrate}
use ignited.Mount.Options.{FlagsCrate}
use ignited.Mount.Mounting.{FilePath}
use ignited.Mount.Moving.{move_mount, move_mount_currdir}
use ignited.Time.{InitramfsTimer, Destination, write}
use ignited.Util.Sanity.{target_root}
use ignited.Util.Ramfs.{delete_ramfs}
use ignited.Util.Systemd.{is_systemd_compatible}
use ignited.Boot.Exit.{Exit, Action, ◌>>=◌, ◌>>◌, bail, pure, running, handed_over, exit}
use ignited.Boot.World.{World, files, State}

abbrev push_names : List String → List String → List String
push_names names [] = names
push_names names (p ∷ ps) = push_names (if p == "" || p == "." then names else p ∷ names) ps

-- `PathBuf::from`: empty pieces and dots are no names.
abbrev pub path_of : String → FilePath
path_of text = record { absolute = starts_with "/" text; names = push_names [] (split b'/' text) }

module _ {u : UuidCrate} {f : FlagsCrate} {g : GlobCrate} (w : World u f g) where
  abbrev pub deleted : State w → Option (Outcome (Unit {0}) × w.Tree) → Exit (Unit {0}) × State w
  deleted h none = (running, h)
  deleted h (some (o, t)) = bail 51 (λ h'. (o, h')) (record h { tree = t })

  abbrev pub delete_step : Action (State w) (Unit {0})
  delete_step h = deleted h (delete_ramfs (files w) w.fuel (w.machine h.tree) h.tree)

  -- From the moving of the mounts to the directory of the new root.
  unfoldable pub switch_root : Action (State w) (Unit {0})
  unfolding move_mount move_mount_currdir delete_ramfs
  switch_root = do
    bail 50 (move_mount w.mover ("/run" ∷ "/dev" ∷ "/proc" ∷ "/sys" ∷ []))
    delete_step
    bail 52 (on_tree (printable ("unable to chdir to " ⧺ target_root) (w.chdir target_root)))
    bail 53 (move_mount_currdir w.mover)
    bail 54 (on_tree (printable "unable to chroot to target" (w.chroot ".")))
    bail 55 (on_tree (printable "unable to chdir to target" (w.chdir ".")))

  abbrev pub memfd_left :
      ℕ → Outcome (Unit {0}) × Destination → w.Tree → Outcome (Unit {0}) × w.Tree
  memfd_left fd (o, dest) t = (o, w.close_memfd fd dest t)

  -- The timestamps for systemd; the result is the number of their file.
  unfoldable pub timer_fd : InitramfsTimer → Action (State w) ℕ
  unfolding write
  timer_fd timer = do
    memfd ← bail 100 (on_tree w.create_memfd)
    bail 100 (on_tree (memfd_left memfd.0 (write timer memfd.1)))
    pure memfd.0

  abbrev pub systemd_args : String → ℕ → List String
  systemd_args init fd = init ∷ "--switched-root" ∷ "--system" ∷ "--deserialize" ∷ show fd ∷ []

  unfoldable pub init_args : InitramfsTimer → String → Action (State w) (List String)
  unfolding is_systemd_compatible timer_fd split
  init_args timer init h =
      if is_systemd_compatible (w.links h.tree) (path_of init)
      then (timer_fd timer >>= λ fd. pure (systemd_args init fd)) h
      else pure (init ∷ []) h

  -- `execv`, which does not come back when it works.
  abbrev executed : String → List String → State w → Exit (Unit {0})
  executed init argv h =
      if w.execv init argv h.tree then handed_over init argv else exit 101 "unable to execute init"

  abbrev pub exec_step : String → List String → Action (State w) (Unit {0})
  exec_step init argv h =
      let h' = record h { kcon = print_message_ln h.kcon info "Switching to target. ¡Adiós!" } in
      (executed init argv h', h')

  unfoldable pub exec_target_init :
      InitramfsTimer → CmdlineArgs u.Uuid f.Flags → Action (State w) (Unit {0})
  unfolding switch_root init_args
  exec_target_init timer args = do
    switch_root
    argv ← init_args timer args.init
    exec_step args.init argv
