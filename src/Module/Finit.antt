-- ===== src/Module/Finit.antt =====
-- `ModLoading::finit` of src/module.rs. The file system's and the kernel's answers are parameters: the
-- opening of the module's file, and whether the kernel takes the module with a text of parameters.
use ignited.Prelude.{String, Bool, true, false, ◌≡◌, ◌↔◌, refl, arith, unwrap_or, if◌then◌else◌}
use ignited.Prelude.Assoc
use ignited.Prelude.Text.{◌⧺◌, join, has}
use ignited.Prelude.Outcome.{Outcome, ok, err, panic}
use ignited.Logging.{KConsole, debug, print_message_ln}
use ignited.Config.Runtime.{InitramfsMetadata}
use ignited.Module.Params.{ModParams, get_params}

abbrev pub kern_modules : String
kern_modules = "/usr/lib/modules"

pub record ModuleAnswers : Type 0 where
  pub opened : Outcome (Unit {0})
  pub takes : String → Bool

-- The options of the configuration, a space, and the parameters of the command line.
unfoldable pub finit_params : InitramfsMetadata → ModParams → String → String
finit_params meta p m =
    unwrap_or (Assoc.get meta.module_opts m) "" ⧺ " " ⧺ join " " (get_params p m)

-- `is_empty`
abbrev pub is_empty : String → Bool
is_empty String.[] = true
is_empty (String.◌∷◌ c s) = false

abbrev pub announce : KConsole → String → String → KConsole
announce kcon m params = print_message_ln kcon debug (
    if is_empty params
    then "loading module " ⧺ m
    else "loading module " ⧺ m ⧺ " params=\"" ⧺ params ⧺ "\"")

-- From the parameters on.
abbrev pub hand_over : ModuleAnswers → String → String → Outcome (Unit {0})
hand_over a m params =
    if has 0 params
    then err "unable to convert parameters to string"
    else if a.takes params
    then ok tt
    else err ("unable to load module " ⧺ m)

unfoldable pub finit :
    InitramfsMetadata
    → ModParams
    → ModuleAnswers
    → String
    → KConsole
    → Outcome (Unit {0}) × KConsole
unfolding finit_params
finit meta p a m kcon = elim a.opened [
  | ok u ↦ let params = finit_params meta p m in (hand_over a m params, announce kcon m params)
  | err io ↦ (err ("unable to open " ⧺ kern_modules ⧺ "/" ⧺ m ⧺ ".ko: " ⧺ io), kcon)
  | panic ↦ (panic, kcon)
]

params_given : (s t : String) → is_empty (s ⧺ " " ⧺ t) ≡ false
params_given String.[] t = refl
params_given (String.◌∷◌ c s) t = refl

-- The module is loaded exactly if its file is opened, the parameters have no null character, and
-- the kernel takes the module with them.
pub finit-ok :
    (meta : InitramfsMetadata) (p : ModParams) (a : ModuleAnswers) (m : String) (kcon : KConsole)
    → ((finit meta p a m kcon).0 ≡ ok tt) ↔ (
        (a.opened ≡ ok tt)
        × (has 0 (finit_params meta p m) ≡ false)
        × (a.takes (finit_params meta p m) ≡ true))
unfolding finit
finit-ok meta p a m kcon = ground arith

-- Once the file is opened, the message says that parameters are given, whether there are any or not:
-- the text has at least the space in it.
pub finit_announces :
    (meta : InitramfsMetadata) (p : ModParams) (a : ModuleAnswers) (m : String) (kcon : KConsole)
    → a.opened ≡ ok tt
    → (finit meta p a m kcon).1
      ≡ print_message_ln kcon debug
          ("loading module " ⧺ m ⧺ " params=\"" ⧺ finit_params meta p m ⧺ "\"")
unfolding finit
finit_announces meta p a m kcon opened =
    rw
      (
        opened,
        params_given (unwrap_or (Assoc.get meta.module_opts m) "") (join " " (get_params p m)),
      )
      refl
