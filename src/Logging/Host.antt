-- ===== src/Logging/Host.antt =====
-- What a function that is given the console can change: the log, and the state of the system.
use ignited.Prelude.{String}
use ignited.Prelude.Outcome.{Outcome, ok}
use ignited.Prelude.Run.{Run}
use ignited.Logging.{KConsole, VerbosityLevel, print_message_ln}

pub record Host (Tree : Type 0) : Type 0 where
  pub kcon : KConsole
  pub tree : Tree

module _ {Tree : Type 0} where
  abbrev back : {A : Type 0} → KConsole → Outcome A × Tree → Outcome A × Host Tree
  back kcon (o, t) = (o, record { kcon = kcon; tree = t })

  -- A call that logs nothing.
  abbrev pub on_tree : {A : Type 0} → Run Tree A → Run (Host Tree) A
  on_tree call h = back h.kcon (call h.tree)

  -- `kcrit!` and the like.
  abbrev pub kprint : VerbosityLevel → String → Run (Host Tree) (Unit {0})
  kprint level text h = (ok tt, record h { kcon = print_message_ln h.kcon level text })
