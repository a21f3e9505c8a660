-- ===== src/Util/Shell.antt =====
-- `spawn_emergency_shell` of src/util.rs. What `execv` does with each shell is a parameter, and so are
-- the text that the `nix` crate has for ENOENT and the one that is printed for any other errno.
use mathlib.Core.List.{append_assoc}
use ignited.Prelude.{
  String, Bool, true, false, ◌≡◌, refl, ◌∙◌, sym, ap, [], ◌∷◌, ◌++◌, if◌then◌else◌,
}
use ignited.Prelude.Text.{◌⧺◌}
use ignited.Logging.{
  VerbosityLevel, KConsole, crit, is_visible, entry_line, print_message_ln, println,
}

pub data Exec : Type 0 where
  -- The program is another one now.
  replaced : Exec
  missing : Exec
  -- Any other errno, as the text that the `precisej` crate prints for the `PrintableErrno` of the call.
  failed : String → Exec

-- Whether the program is gone, and the console as it was left.
pub data ShellEnd : Type 0 where
  in_shell returned : KConsole → ShellEnd

abbrev pub busybox : String
busybox = "unable to execute /bin/busybox"

abbrev pub toybox : String
toybox = "unable to execute /bin/toybox"

-- ENOENT comes with its description, any other error as what is printed for it.
abbrev pub complaint : String → String → Exec → String
complaint desc shell missing = shell ⧺ ": " ⧺ desc
complaint desc shell (failed text) = text
complaint desc shell replaced = shell

abbrev pub say : KConsole → String → KConsole
say kcon text = print_message_ln kcon crit text

-- Behind the second shell: the line that was put off for the first, and that for the second.
abbrev after_toybox : String → Exec → Bool → KConsole → ShellEnd
after_toybox desc replaced exists_b kcon = in_shell kcon
after_toybox desc answer exists_b kcon = returned (
    say (if exists_b then kcon else say kcon (busybox ⧺ ": " ⧺ desc))
      (complaint desc toybox answer))

abbrev after_busybox : String → Exec → Exec → KConsole → ShellEnd
after_busybox desc replaced t kcon = in_shell kcon
after_busybox desc missing t kcon = after_toybox desc t false kcon
after_busybox desc (failed text) t kcon = after_toybox desc t true (say kcon text)

unfoldable pub spawn_emergency_shell : String → Exec → Exec → KConsole → ShellEnd
spawn_emergency_shell desc b t kcon =
    after_busybox desc b t (say kcon "attempting to spawn emergency shell")

-- The critical level is under every threshold.
crit_visible : (level : VerbosityLevel) → is_visible level crit ≡ true
crit_visible VerbosityLevel.debug = refl
crit_visible _ = refl

pub say_lem :
    (kcon : KConsole) (text : String)
    → say kcon text ≡ record kcon { handle = kcon.handle ++ entry_line crit text ∷ [] }
unfolding print_message_ln
say_lem kcon text = rw (println, crit_visible kcon.current_level)

say_thrice :
    (kcon : KConsole) (x y z : String)
    → say (say (say kcon x) y) z ≡ record kcon {
      handle = kcon.handle ++ entry_line crit x ∷ entry_line crit y ∷ entry_line crit z ∷ [];
    }
say_thrice kcon x y z = simp (say_lem, append_assoc)

kcon_of : ShellEnd → KConsole
kcon_of (in_shell k) = k
kcon_of (returned k) = k

returned-injective : {k l : KConsole} → returned k ≡ returned l → l ≡ k
unfolding kcon_of
returned-injective e = sym (ap kcon_of e)

-- When neither shell can be executed, the three lines about it reach the device in order, whatever
-- the level of the console is and whichever errors there were, and nothing else changes.
pub spawn_emergency_shell_lines :
    (desc : String) (b t : Exec) (kcon : KConsole) {left : KConsole}
    → spawn_emergency_shell desc b t kcon ≡ returned left
    → left ≡ record kcon {
      handle =
          kcon.handle
          ++ entry_line crit "attempting to spawn emergency shell"
            ∷ entry_line crit (complaint desc busybox b)
            ∷ entry_line crit (complaint desc toybox t)
            ∷ [];
    }
unfolding spawn_emergency_shell
spawn_emergency_shell_lines desc replaced t kcon h = cc
spawn_emergency_shell_lines desc missing replaced kcon h = cc
spawn_emergency_shell_lines desc (failed x) replaced kcon h = cc
spawn_emergency_shell_lines desc missing missing kcon h =
    returned-injective h ∙ say_thrice kcon _ _ _
spawn_emergency_shell_lines desc missing (failed y) kcon h =
    returned-injective h ∙ say_thrice kcon _ _ _
spawn_emergency_shell_lines desc (failed x) missing kcon h =
    returned-injective h ∙ say_thrice kcon _ _ _
spawn_emergency_shell_lines desc (failed x) (failed y) kcon h =
    returned-injective h ∙ say_thrice kcon _ _ _
