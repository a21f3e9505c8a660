-- ===== src/Boot/Ends.antt =====
-- Where `init` can end, and what it has logged by then.
use ignited.Prelude.{ℕ, ◌≤◌, Bool, true, false, Option, none, some, arith, if◌then◌else◌}
use ignited.Prelude.Outcome.{Outcome}
use ignited.Prelude.Run.{give}
use ignited.Logging.{KConsole}
use ignited.Config.Runtime.{RuntimeConfig}
use ignited.Module.Loading.{Loader}
use ignited.Module.Aliases.{GlobCrate}
use ignited.Mount.Source.{UuidCrate}
use ignited.Mount.Options.{FlagsCrate}
use ignited.Mount.Mounting.{Mount, sysfs, proc, efivarfs}
use ignited.Time.{InitramfsTimer}
use ignited.Threads.Sysfs.{walk}
use ignited.Util.Pivot.{make_shutdown_pivot_dir}
use ignited.Boot.Exit.{
  bail, pure, Within, Stays, Fails, bail-Stays, pure-Stays, >>=-Stays, >>-Stays, >>=-Fails,
  >>-Fails, >>=-Fails_first,
}
use ignited.Boot.World.{World, State}
use ignited.Boot.Init.{
  pivoted, loaded, log_step, Args, Prepared, mount_step, run_tmpfs, mount_all, reads, pivot_step,
  prepare, parse_step, load_step, start_init, init,
}

-- The codes between two bounds.
abbrev pub Between : ℕ → ℕ → ℕ → Type 0
Between low high code = (low ≤ code) × (code ≤ high)

module _ {u : UuidCrate} {f : FlagsCrate} {g : GlobCrate} (w : World u f g) where
  mount_step-Stays : (m : Mount f.Flags) → Stays (Between 3 13) (mount_step w m)
  mount_step-Stays m = bail-Stays 3 _ (omega arith, omega arith)

  efi_step-Stays :
      (b : Bool) → Stays (Between 3 13) (if b then mount_step w efivarfs else pure {S = State w} tt)
  efi_step-Stays true = mount_step-Stays efivarfs
  efi_step-Stays false = pure-Stays tt

  mount_all-Stays : Stays (Between 3 13) (mount_all w)
  unfolding mount_all
  mount_all-Stays = >>-Stays _ _ (mount_step-Stays sysfs) (
      >>-Stays _ _ (mount_step-Stays proc) (
        >>-Stays _ _ (mount_step-Stays (run_tmpfs w)) (
          >>=-Stays _ _ (record { from = λ h. (pure-Stays (w.efi_exists h.tree)).from h })
            (λ efi_mode. >>-Stays _ _ (efi_step-Stays efi_mode) (pure-Stays efi_mode)))))

  reads-Stays :
      {A : Type 0} (low code : ℕ) (read : w.Tree → Outcome A)
      → Between low 13 code
      → Stays (Between low 13) (reads w code read)
  reads-Stays low code read h = bail-Stays code _ h

  pivot_step-Stays : Stays (Between 3 13) (pivot_step w)
  pivot_step-Stays = record {
    from = λ h. of_answer h (make_shutdown_pivot_dir (w.pivot_answer h.tree) w.fuel 0);
  }
    where
      of_answer :
          (h : State w) (o : Option (Outcome (Unit {0}) × ℕ))
          → Within (Between 3 13) (pivoted w h o).0
      of_answer h none = tt
      of_answer h (some (o, calls)) =
          (bail-Stays {P = Between 3 13} 7 (λ h'. (o, h')) (omega arith, omega arith)).from
            (record h { tree = w.pivot_left h.tree calls })

  prepare-Stays : Stays (Between 3 13) (prepare w)
  unfolding prepare
  prepare-Stays = >>=-Stays _ _ mount_all-Stays (λ efi_mode.
      >>-Stays _ _ (record { from = λ h. (pure-Stays tt).from (record h { tree = _ }) })
        (>>=-Stays _ _ (reads-Stays 3 4 _ (omega arith, omega arith)) (λ config.
          >>-Stays _ _ (reads-Stays 3 5 _ (omega arith, omega arith)) (
            >>=-Stays _ _ (reads-Stays 3 6 _ (omega arith, omega arith))
              (λ aliases. >>-Stays _ _ pivot_step-Stays (pure-Stays _))))))

  loaded-Stays : (low : ℕ) (o : Option Loader) → Stays (Between low 13) (loaded w o)
  loaded-Stays low none = record { from = λ h. tt }
  loaded-Stays low (some st) = pure-Stays _

  load_step-Stays :
      (low : ℕ) (config : RuntimeConfig) → low ≤ 9 → Stays (Between low 13) (load_step w config)
  unfolding load_step
  load_step-Stays low config h =
      >>-Stays _ _ (bail-Stays 11 _ (omega arith, omega arith)) (loaded-Stays low _)

  log_step-Stays : (low : ℕ) (say : KConsole → KConsole) → Stays (Between low 13) (log_step w say)
  log_step-Stays low say = record {
    from = λ h. (pure-Stays tt).from (record h { kcon = say h.kcon });
  }

  -- The walk fails.
  walk_step-Fails :
      (low : ℕ)
      → low ≤ 9
      → Fails
          (Between low 13)
          (bail {S = State w} 13 (give (walk w.closed_text w.wake_modaliases w.wake_block)))
  unfolding bail walk
  walk_step-Fails low h = record { from = λ s. (omega arith, omega arith) }

  pub start_init-Fails :
      (low : ℕ) (timer : InitramfsTimer) (p : Prepared w) (args : Args w)
      → low ≤ 9
      → Fails (Between low 13) (start_init w timer p args)
  unfolding start_init
  start_init-Fails low timer p args h = >>-Fails _ _ (log_step-Stays low _) (
      >>-Fails _ _ (log_step-Stays low _) (
        >>-Fails _ _ (reads-Stays low 9 _ (h, omega arith)) (
          >>-Fails _ _ (reads-Stays low 9 _ (h, omega arith)) (
            >>=-Fails _ _ (bail-Stays 10 _ (omega arith, omega arith)) (λ udev.
              >>=-Fails _ _ (load_step-Stays low p.config h) (λ wg.
                >>-Fails _ _ (bail-Stays 12 _ (omega arith, omega arith))
                  (>>=-Fails_first _ _ (walk_step-Fails low h))))))))

  pub parse_step-Stays : (low : ℕ) → low ≤ 8 → Stays (Between low 13) (parse_step w)
  parse_step-Stays low h = bail-Stays 8 _ (h, omega arith)

  -- `init` never returns and never hands over, since the walk of /sys is not written yet: it exits
  -- with a code from 3 to 13, panics, or does not end.
  pub init-Fails : (timer : InitramfsTimer) → Fails (Between 3 13) (init w timer)
  unfolding init
  init-Fails timer = >>=-Fails _ _ prepare-Stays (λ p.
      >>=-Fails _ _ (parse_step-Stays 3 (omega arith))
        (λ args. start_init-Fails 3 timer p args (omega arith)))
