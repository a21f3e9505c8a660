-- ===== src/Config/Cmdline/Handlers.antt =====
-- The functions `parse_…` of `CmdlineArgs` in src/config.rs, each over the variables that it is given.
use ignited.Prelude.{
  String, Bool, true, false, Option, none, some, List, [], ◌∷◌, ◌==◌, or_else, if◌then◌else◌,
}
use ignited.Prelude.Text.{◌⧺◌, split, split_once, has}
use ignited.Prelude.Outcome.{Outcome, ok, err, panic}
use ignited.Logging.{VerbosityLevel, debug, try_from}
use ignited.Logging.Buffer.{KmsgBuf, kdebug, kwarn}
use ignited.Mount.Source.{UuidCrate, PartitionSourceBuilder, parse}
use ignited.Mount.Options.{FlagsCrate, RootOptsBuilder, source, fstype, add_opts, ro, rw_mode}
use ignited.Module.Params.{ModParams, insert}

-- One word of the value of `ignited.log=` or `booster.log=`.
unfoldable pub log_word :
    String → KmsgBuf → Option VerbosityLevel → String → KmsgBuf × Option VerbosityLevel
log_word key b level word = elim (try_from word) [
  | some l ↦ (b, or_else level (some l))
  | none ↦
      if word == "console"
      then (kdebug b (key ⧺ "=console is ignored in ignited"), level)
      else (kwarn b ("unknown " ⧺ key ⧺ " key " ⧺ word), level)
]

unfoldable pub log_words :
    String → KmsgBuf → Option VerbosityLevel → List String → KmsgBuf × Option VerbosityLevel
unfolding log_word
log_words key b level [] = (b, level)
log_words key b level (w ∷ ws) =
    let (b', level') = log_word key b level w in log_words key b' level' ws

-- `filter(|v| !v.is_empty())`
unfoldable pub drop_empty : List String → List String
drop_empty [] = []
drop_empty (w ∷ ws) = let rest = drop_empty ws in if w == "" then rest else w ∷ rest

abbrev pub log_key : Bool → String
log_key true = "booster.log"
log_key false = "ignited.log"

-- The words of a value: those between commas for `booster.log=`, the whole for `ignited.log=`.
unfoldable pub words_of : Bool → String → List String
unfolding split drop_empty
words_of true value = drop_empty (split b',' value)
words_of false value = value ∷ []

unfoldable pub parse_ignited_log :
    KmsgBuf → Option VerbosityLevel → Option String → Bool → KmsgBuf × Option VerbosityLevel
unfolding log_words words_of
parse_ignited_log b level (some value) compat =
    log_words (log_key compat) b level (words_of compat value)
parse_ignited_log b level none compat =
    (kwarn b ("unknown " ⧺ log_key compat ⧺ " key <EMPTY>"), level)

unfoldable pub parse_booster_debug :
    KmsgBuf → Option VerbosityLevel → KmsgBuf × Option VerbosityLevel
parse_booster_debug b level = (
  kdebug b "booster.debug is deprecated: use ignited.log=debug instead.",
  or_else level (some debug),
)

unfoldable pub parse_quiet : Option VerbosityLevel → Option VerbosityLevel
parse_quiet level = or_else level (some VerbosityLevel.err)

-- `CString::new` refuses a text with a null character.
unfoldable pub parse_init :
    KmsgBuf → Option String → Option String → Outcome (Unit {0}) × KmsgBuf × Option String
unfolding has
parse_init b init (some value) =
    if has 0 value
    then (err ("invalid init path " ⧺ value ⧺ ": path contains null value"), b, init)
    else (ok tt, b, or_else init (some value))
parse_init b init none = (ok tt, kwarn b "init key is empty, ignoring", init)

unfoldable pub parse_mod_param : KmsgBuf → ModParams → String → Option String → KmsgBuf × ModParams
unfolding split_once
parse_mod_param b p mod_param (some value) = elim (split_once b'.' mod_param) [
  | some (m, param) ↦ (b, insert p m param value)
  | none ↦ (kwarn b ("invalid key " ⧺ mod_param), p)
]
parse_mod_param b p mod_param none = (kwarn b ("invalid key " ⧺ mod_param), p)

-- The value is read before it is known whether it is used.
module _ (u : UuidCrate) where
  unfoldable pub parse_resume :
      KmsgBuf
      → Option (PartitionSourceBuilder u.Uuid)
      → Option String
      → Outcome (Unit {0}) × KmsgBuf × Option (PartitionSourceBuilder u.Uuid)
  parse_resume b resume (some value) = elim (parse u value) [
    | some src ↦ (ok tt, b, or_else resume (some src))
    | none ↦ (err "unable to parse resume key", b, resume)
  ]
  parse_resume b resume none = (ok tt, kwarn b "resume key is empty, ignoring", resume)

  unfoldable pub parse_root :
      {Flags : Type 0}
      → KmsgBuf
      → RootOptsBuilder u.Uuid Flags
      → Option String
      → Outcome (Unit {0}) × KmsgBuf × RootOptsBuilder u.Uuid Flags
  unfolding source
  parse_root b opts (some value) = elim (parse u value) [
    | some src ↦ (ok tt, b, source opts src)
    | none ↦ (err "unable to parse root key", b, opts)
  ]
  parse_root b opts none = (ok tt, kwarn b "root key is empty, ignoring", opts)

unfoldable pub parse_rootfstype :
    {Uuid Flags : Type 0}
    → KmsgBuf
    → RootOptsBuilder Uuid Flags
    → Option String
    → KmsgBuf × RootOptsBuilder Uuid Flags
unfolding fstype
parse_rootfstype b opts (some value) = (b, fstype opts value)
parse_rootfstype b opts none = (kwarn b "rootfstype key is empty, ignoring", opts)

unfoldable pub parse_rootflags :
    {Uuid : Type 0} (f : FlagsCrate)
    → KmsgBuf
    → RootOptsBuilder Uuid f.Flags
    → Option String
    → KmsgBuf × RootOptsBuilder Uuid f.Flags
parse_rootflags f b opts (some value) = (b, add_opts f opts value)
parse_rootflags f b opts none = (kwarn b "rootflags key is empty, ignoring", opts)

unfoldable pub parse_rootmode :
    {Uuid Flags : Type 0} → RootOptsBuilder Uuid Flags → Bool → RootOptsBuilder Uuid Flags
unfolding ro rw_mode
parse_rootmode opts true = rw_mode opts
parse_rootmode opts false = ro opts

-- `parse_luksopts`, `parse_luksname` and `parse_luksuuid` are `todo!`.
unfoldable pub parse_luks : Outcome (Unit {0})
parse_luks = panic
