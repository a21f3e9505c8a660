-- ===== src/Logging/Buffer.antt =====
-- src/early_logging/buf.rs: entries are kept until the verbosity threshold is known.
pub mod Refinement
use ignited.Prelude.{ℕ, String, Bool, true, false, List, [], ◌∷◌, ◌++◌, if◌then◌else◌}
use ignited.Logging.{
  VerbosityLevel, debug, info, notice, warn, err, crit, KConsole, change_verbosity,
  print_message_ln,
}

pub record KmsgBufEntry : Type 0 where
  pub level : VerbosityLevel
  pub args : String

pub record KmsgBuf : Type 0 where
  pub inner_con : KConsole
  pub inner_buf : List KmsgBufEntry
  pub flushed : Bool

unfoldable pub new : KConsole → KmsgBuf
new kcon = record { inner_con = kcon; inner_buf = []; flushed = false }

-- `_println`: the macro of the level.
unfoldable pub println_as : KConsole → VerbosityLevel → String → KConsole
println_as kcon debug args = print_message_ln kcon debug args
println_as kcon info args = print_message_ln kcon info args
println_as kcon notice args = print_message_ln kcon notice args
println_as kcon warn args = print_message_ln kcon warn args
println_as kcon err args = print_message_ln kcon err args
println_as kcon crit args = print_message_ln kcon crit args

-- `_kany`
unfoldable pub kany : KmsgBuf → VerbosityLevel → String → KmsgBuf
unfolding println_as
kany b level args =
    if b.flushed
    then record b { inner_con = println_as b.inner_con level args }
    else record b { inner_buf = b.inner_buf ++ record { level = level; args = args } ∷ [] }

unfoldable pub kdebug : KmsgBuf → String → KmsgBuf
kdebug b args = kany b debug args

unfoldable pub kwarn : KmsgBuf → String → KmsgBuf
kwarn b args = kany b warn args

-- The loop over the drained entries.
unfoldable pub drain : KConsole → List KmsgBufEntry → KConsole
drain kcon [] = kcon
drain kcon (entry ∷ rest) = drain (print_message_ln kcon entry.level entry.args) rest

unfoldable pub flush_with_level : KmsgBuf → VerbosityLevel → KmsgBuf
unfolding drain
flush_with_level b level = record {
  inner_con = drain (change_verbosity b.inner_con level) b.inner_buf;
  inner_buf = [];
  flushed = true;
}
