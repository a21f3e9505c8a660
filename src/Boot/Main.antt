-- ===== src/Boot/Main.antt =====
-- `main` and `initialize_kcon` of src/main.rs. The log is what was written to /dev/kmsg by the end.
use ignited.Prelude.{ℕ, String, List, [], arith}
use ignited.Prelude.Outcome.{Outcome, ok, err, panic}
use ignited.Prelude.Run.{Run, ◌>>◌}
use ignited.Logging.Device.{new_console}
use ignited.Logging.{KConsole, crit, print_message_ln}
use ignited.Module.Aliases.{GlobCrate}
use ignited.Mount.Source.{UuidCrate}
use ignited.Mount.Options.{FlagsCrate}
use ignited.Mount.Mounting.{dev_tmpfs, mount}
use ignited.Time
use ignited.Time.{InitramfsTimer}
use ignited.Util.Sanity.{initial_sanity_check}
use ignited.Util.Shell.{ShellEnd, in_shell, returned, spawn_emergency_shell}
use ignited.Boot.Exit.{Exit, done, running, exit, handed_over, panicked, Barred}
use ignited.Boot.World.{World, kernel, State}
use ignited.Boot.Init.{init}
use ignited.Boot.Ends.{Between, init-Fails}

-- `main` returned, is another program, a shell, has exited with a code, or aborted; or it runs on.
pub data MainEnd : Type 0 where
  ended in_emergency aborted waiting : MainEnd
  replaced_by : String → List String → MainEnd
  exited : ℕ → MainEnd

-- Where the program does not become the target's init.
abbrev pub NoBoot : MainEnd → Type 0
NoBoot ended = ⊥
NoBoot in_emergency = Unit
NoBoot aborted = Unit
NoBoot waiting = Unit
NoBoot (replaced_by path argv) = ⊥
NoBoot (exited code) = Between 1 13 code

module _ {u : UuidCrate} {f : FlagsCrate} {g : GlobCrate} (w : World u f g) where
  unfoldable pub initialize_kcon : Run w.Tree KConsole
  unfolding mount new_console
  initialize_kcon = mount f (kernel w) dev_tmpfs >> (λ t. (new_console (w.open_kmsg t), t))

  abbrev pub Ended : Type 0
  Ended = MainEnd × (List String × w.Tree)

  abbrev pub kcrit : String → KConsole → KConsole
  kcrit text kcon = print_message_ln kcon crit text

  abbrev pub after_shell : ℕ → w.Tree → ShellEnd → Ended
  after_shell code t (in_shell kcon) = (in_emergency, (kcon.handle, t))
  after_shell code t (returned kcon) =
      let kcon' =
        kcrit "finished syncing disks, kernel will panic on exit"
          (kcrit "syncing disks" (kcrit "unable to spawn emergency shell" kcon)) in
      (exited code, (kcon'.handle, w.sync t))

  -- What `main` does behind `init`.
  unfoldable pub after_init : Exit (Unit {0}) × State w → Ended
  unfolding spawn_emergency_shell
  after_init (done u', h) = (ended, (h.kcon.handle, h.tree))
  after_init (panicked, h) = (aborted, (h.kcon.handle, h.tree))
  after_init (running, h) = (waiting, (h.kcon.handle, h.tree))
  after_init (handed_over path argv, h) = (replaced_by path argv, (h.kcon.handle, h.tree))
  after_init (exit code message, h) = after_shell code h.tree (
      spawn_emergency_shell w.enoent_text w.exec_busybox w.exec_toybox
        (kcrit (w.error_text code message h.tree) h.kcon))

  abbrev with_console : InitramfsTimer → Outcome KConsole × w.Tree → Ended
  with_console timer (ok kcon, t) = after_init (init w timer (record { kcon = kcon; tree = t }))
  with_console timer (err e, t) = (exited 2, ([], t))
  with_console timer (panic, t) = (aborted, ([], t))

  abbrev checked : InitramfsTimer → w.Tree → Outcome (Unit {0}) → Ended
  checked timer t (ok u') = with_console timer (initialize_kcon t)
  checked timer t (err e) = (exited 1, ([], t))
  checked timer t panic = (aborted, ([], t))

  unfoldable pub main : w.Tree → Ended
  unfolding initial_sanity_check initialize_kcon init after_init Time.start
  main t = checked (Time.start w.realtime w.monotonic) t (initial_sanity_check (w.machine t))

  after_shell-NoBoot :
      (code : ℕ) (t : w.Tree) (e : ShellEnd) → Between 3 13 code → NoBoot (after_shell code t e).0
  after_shell-NoBoot code t (in_shell kcon) h = tt
  after_shell-NoBoot code t (returned kcon) h = (omega arith, omega arith)

  after_init-NoBoot :
      (r : Exit (Unit {0}) × State w) → Barred (Between 3 13) r.0 → NoBoot (after_init r).0
  unfolding after_init
  after_init-NoBoot (done u', h) b = absurd b
  after_init-NoBoot (panicked, h) b = tt
  after_init-NoBoot (running, h) b = tt
  after_init-NoBoot (handed_over path argv, h) b = absurd b
  after_init-NoBoot (exit code message, h) b = after_shell-NoBoot code h.tree _ b

  with_console-NoBoot :
      (timer : InitramfsTimer) (r : Outcome KConsole × w.Tree) → NoBoot (with_console timer r).0
  with_console-NoBoot timer (ok kcon, t) = after_init-NoBoot _ ((init-Fails w timer).from _)
  with_console-NoBoot timer (err e, t) = (omega arith, omega arith)
  with_console-NoBoot timer (panic, t) = tt

  -- Whatever the system is, the program never becomes the target's init and never returns: it exits
  -- with a code from 1 to 13, is an emergency shell, aborts, or runs on.
  pub main-NoBoot : (t : w.Tree) → NoBoot (main t).0
  unfolding main
  main-NoBoot t = of_check (initial_sanity_check (w.machine t))
    where
      of_check :
          (o : Outcome (Unit {0})) → NoBoot (checked (Time.start w.realtime w.monotonic) t o).0
      of_check (ok u') = with_console-NoBoot _ (initialize_kcon t)
      of_check (err e) = (omega arith, omega arith)
      of_check panic = tt
