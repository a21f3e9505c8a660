-- ===== src/Config/Cmdline/Notes.antt =====
-- The messages that the arguments of the command line cause.
use ignited.Prelude.{
  String, Bool, true, false, ◌≡◌, refl, ap, sym, ◌∙◌, Option, none, some, List, [], ◌∷◌, ◌==◌,
  arith, if◌then◌else◌, concat_map, Option-cases, Bool-cases, inl, inr,
}
use ignited.Prelude.Text.{◌⧺◌, split_once}
use ignited.Logging.{VerbosityLevel, debug, warn, try_from}
use ignited.Logging.Buffer.{KmsgBuf, KmsgBufEntry, kdebug, kwarn}
use ignited.Logging.Buffer.Refinement.{log_all, log_all-append}
use ignited.Mount.Source.{UuidCrate}
use ignited.Mount.Options.{FlagsCrate}
use ignited.Module.Params.{ModParams}
use ignited.Config.Cmdline.{State, split_arg, dispatch, parse_arg}
use ignited.Config.Cmdline.Handlers.{log_word, log_words, words_of, log_key, parse_mod_param}
use ignited.Config.Cmdline.Keys.{
  Key, key_of, ignited_log, booster_log, booster_debug, root, resume, init, rootfstype, rootflags,
  mod_param,
}

abbrev message : VerbosityLevel → String → List KmsgBufEntry
message level args = record { level = level; args = args } ∷ []

-- A word that is no level is either ignored or unknown.
abbrev pub word_notes : String → String → List KmsgBufEntry
word_notes key word = elim (try_from word) [
  | some l ↦ []
  | none ↦
      if word == "console"
      then message debug (key ⧺ "=console is ignored in ignited")
      else message warn ("unknown " ⧺ key ⧺ " key " ⧺ word)
]

abbrev log_notes : Bool → Option String → List KmsgBufEntry
log_notes compat (some value) = concat_map (word_notes (log_key compat)) (words_of compat value)
log_notes compat none = message warn ("unknown " ⧺ log_key compat ⧺ " key <EMPTY>")

-- A key that stands without a value is reported.
abbrev empty_note : String → Option String → List KmsgBufEntry
empty_note key (some value) = []
empty_note key none = message warn (key ⧺ " key is empty, ignoring")

-- A module parameter wants a dot in its key and a value.
abbrev param_notes : String → Option String → List KmsgBufEntry
param_notes name (some value) = elim (split_once b'.' name) [
  | some p ↦ []
  | none ↦ message warn ("invalid key " ⧺ name)
]
param_notes name none = message warn ("invalid key " ⧺ name)

abbrev pub notes_by : Key → String → Option String → List KmsgBufEntry
notes_by ignited_log name v = log_notes false v
notes_by booster_log name v = log_notes true v
notes_by booster_debug name v =
    message debug "booster.debug is deprecated: use ignited.log=debug instead."
notes_by root name v = empty_note "root" v
notes_by resume name v = empty_note "resume" v
notes_by init name v = empty_note "init" v
notes_by rootfstype name v = empty_note "rootfstype" v
notes_by rootflags name v = empty_note "rootflags" v
notes_by mod_param name v = param_notes name v
notes_by _ name v = []

-- The messages that one argument causes.
abbrev pub notes : String → List KmsgBufEntry
notes arg = let (k, v) = split_arg arg in notes_by (key_of k) k v

buf-log_word :
    (key : String) (b : KmsgBuf) (level : Option VerbosityLevel) (w : String)
    → (log_word key b level w).0 ≡ log_all b (word_notes key w)
unfolding log_word log_all kdebug kwarn
buf-log_word key b level w = elim (Option-cases (try_from w)) [
  | inl unknown ↦ elim (Bool-cases (w == "console")) [
    | inl console ↦ rw (log_word, word_notes, unknown) (rw console)
    | inr other ↦ rw (log_word, word_notes, unknown) (rw other)
  ]
  | inr (l, known) ↦ rw (log_word, word_notes, known)
]

buf-log_words :
    (key : String) (b : KmsgBuf) (level : Option VerbosityLevel) (ws : List String)
    → (log_words key b level ws).0 ≡ log_all b (concat_map (word_notes key) ws)
unfolding log_words
buf-log_words key b level [] = unfold log_all in refl
buf-log_words key b level (w ∷ ws) =
    buf-log_words key (log_word key b level w).0 (log_word key b level w).1 ws
    ∙ ap (λ c. log_all c (concat_map (word_notes key) ws)) (buf-log_word key b level w)
    ∙ sym (log_all-append b (word_notes key w) (concat_map (word_notes key) ws))

buf-parse_mod_param :
    (b : KmsgBuf) (p : ModParams) (name value : String)
    → (parse_mod_param b p name (some value)).0 ≡ log_all b (param_notes name (some value))
unfolding parse_mod_param kwarn
buf-parse_mod_param b p name value = elim (Option-cases (split_once b'.' name)) [
  | inl no_dot ↦ rw (parse_mod_param, param_notes, no_dot) (unfold log_all in refl)
  | inr (parts, dot) ↦ rw (parse_mod_param, param_notes, dot) (unfold log_all in refl)
]

module _ (u : UuidCrate) (f : FlagsCrate) where
  buf-dispatch :
      (k : Key) (name : String) (v : Option String) (s : State u f)
      → (dispatch u f k name v s).1.kmsg_buf ≡ log_all s.kmsg_buf (notes_by k name v)
  unfolding dispatch log_all kdebug kwarn
  buf-dispatch ignited_log name none s = refl
  buf-dispatch ignited_log name (some v) s =
      buf-log_words (log_key false) s.kmsg_buf s.verbosity_level (words_of false v)
  buf-dispatch booster_log name none s = refl
  buf-dispatch booster_log name (some v) s =
      buf-log_words (log_key true) s.kmsg_buf s.verbosity_level (words_of true v)
  buf-dispatch mod_param name none s = refl
  buf-dispatch mod_param name (some value) s =
      buf-parse_mod_param s.kmsg_buf s.mod_params name value
  buf-dispatch _ name v s = ground arith

  -- Each argument logs its messages and nothing else.
  pub buf-parse_arg :
      (s : State u f) (arg : String)
      → (parse_arg u f s arg).1.kmsg_buf ≡ log_all s.kmsg_buf (notes arg)
  unfolding parse_arg
  buf-parse_arg s arg = let (k, v) = split_arg arg in buf-dispatch (key_of k) k v s
