-- ===== src/Boot/Report.antt =====
-- What is in the log when `init` failed early and no emergency shell could be executed.
use mathlib.Core.List.{append_assoc}
use ignited.Prelude.{ℕ, ◌<◌, String, ◌≡◌, ap, ◌∙◌, List, [], ◌∷◌, ◌++◌}
use ignited.Logging.{KConsole, crit, entry_line}
use ignited.Module.Aliases.{GlobCrate}
use ignited.Mount.Source.{UuidCrate}
use ignited.Mount.Options.{FlagsCrate}
use ignited.Time.{InitramfsTimer}
use ignited.Util.Shell.{
  returned, spawn_emergency_shell, busybox, toybox, complaint, spawn_emergency_shell_lines, say_lem,
}
use ignited.Boot.Exit.{exit}
use ignited.Boot.World.{World, State}
use ignited.Boot.Init.{init}
use ignited.Boot.Silent.{init-IsSilent}
use ignited.Boot.Main.{exited, kcrit, after_shell, after_init}

module _ {u : UuidCrate} {f : FlagsCrate} {g : GlobCrate} (w : World u f g) where
  -- The lines for an error with this text, one for each call of `kcrit!`.
  abbrev pub report : String → List String
  report text =
      entry_line crit text
      ∷ entry_line crit "attempting to spawn emergency shell"
      ∷ entry_line crit (complaint w.enoent_text busybox w.exec_busybox)
      ∷ entry_line crit (complaint w.enoent_text toybox w.exec_toybox)
      ∷ entry_line crit "unable to spawn emergency shell"
      ∷ entry_line crit "syncing disks"
      ∷ entry_line crit "finished syncing disks, kernel will panic on exit"
      ∷ []

  after_init-report :
      (code : ℕ) (message : String) (h : State w) (left : KConsole)
      → spawn_emergency_shell w.enoent_text w.exec_busybox w.exec_toybox
          (kcrit w (w.error_text code message h.tree) h.kcon)
        ≡ returned left
      → after_init w (exit code message, h)
        ≡ (exited code, (h.kcon.handle ++ report (w.error_text code message h.tree), w.sync h.tree))
  unfolding after_init
  after_init-report code message h left e =
      ap (after_shell w code h.tree) e
      ∙ ap (λ kcon. after_shell w code h.tree (returned kcon))
          (spawn_emergency_shell_lines w.enoent_text w.exec_busybox w.exec_toybox
            (kcrit w (w.error_text code message h.tree) h.kcon) e)
      ∙ simp (say_lem, append_assoc)

  -- When `init` exits with a code below 8 and no shell can be executed, the program exits with that
  -- code, and the log has the lines for the error behind what it had, and no others: the text that is
  -- printed for the error, and those about the shells and the end.
  pub after_init_early :
      (timer : InitramfsTimer) (h : State w) (code : ℕ) (message : String) (left : KConsole)
      → (init w timer h).0 ≡ exit code message
      → code < 8
      → spawn_emergency_shell w.enoent_text w.exec_busybox w.exec_toybox
          (kcrit w (w.error_text code message (init w timer h).1.tree) h.kcon)
        ≡ returned left
      → ((after_init w (init w timer h)).0 ≡ exited code)
        × ((after_init w (init w timer h)).1.0
            ≡ h.kcon.handle ++ report (w.error_text code message (init w timer h).1.tree))
  after_init_early timer h code message left e low shell =
      let h' : State w = (init w timer h).1 in
      let silent = init-IsSilent w timer h code message e low in
      let whole =
        ap (λ x. after_init w (x, h')) e
        ∙ after_init-report code message h' left (
            ap
              (λ k.
                spawn_emergency_shell w.enoent_text w.exec_busybox w.exec_toybox
                  (kcrit w (w.error_text code message h'.tree) k))
              silent
            ∙ shell) in
      (
        ap (λ r. r.0) whole,
        ap (λ r. r.1.0) whole
            ∙ ap (λ (k : KConsole). k.handle ++ report (w.error_text code message h'.tree)) silent,
      )
