-- ===== src/Config/Cmdline/Steps.antt =====
-- One argument changes each variable as it says, whatever the other variables hold.
use ignited.Prelude.{
  String, true, false, ◌≡◌, refl, sym, ◌∙◌, Option, none, some, List, [], ◌∷◌, arith, or_else,
  or_else-none, or_else_assoc, find_map, unwrap_or,
}
use ignited.Logging.{VerbosityLevel, try_from}
use ignited.Logging.Buffer.{KmsgBuf}
use ignited.Mount.Source.{UuidCrate}
use ignited.Mount.Options.{FlagsCrate}
use ignited.Mount.Options.Frame.{source-add_opts, fstype-add_opts, is_rw-add_opts}
use ignited.Config.Cmdline.{State, split_arg, dispatch, parse_arg}
use ignited.Config.Cmdline.Handlers.{log_word, log_words, words_of, log_key}
use ignited.Config.Cmdline.Keys.{Key, key_of, ignited_log, booster_log, quiet, rootflags}
use ignited.Config.Cmdline.Arguments.{
  by, level_by, init_by, fstype_by, mode_by, root_by, resume_by, verdict_by,
}

level-log_words :
    (key : String) (b : KmsgBuf) (level : Option VerbosityLevel) (ws : List String)
    → (log_words key b level ws).1 ≡ or_else level (find_map try_from ws)
unfolding log_words
level-log_words key b level [] = rw or_else-none
level-log_words key b level (w ∷ ws) = ground (
  arith,
  level-log_words key (log_word key b level w).0 (log_word key b level w).1 ws,
  or_else_assoc level (try_from w) (find_map try_from ws),
  or_else-none level,
)

module _ (u : UuidCrate) (f : FlagsCrate) where
  level-dispatch :
      (k : Key) (name : String) (v : Option String) (s : State u f)
      → (dispatch u f k name v s).1.verbosity_level ≡ or_else s.verbosity_level (level_by k v)
  unfolding dispatch
  level-dispatch ignited_log name none s = sym (or_else-none _)
  level-dispatch ignited_log name (some v) s =
      level-log_words (log_key false) s.kmsg_buf s.verbosity_level (words_of false v)
  level-dispatch booster_log name none s = sym (or_else-none _)
  level-dispatch booster_log name (some v) s =
      level-log_words (log_key true) s.kmsg_buf s.verbosity_level (words_of true v)
  level-dispatch _ name v s = ground (arith, or_else-none s.verbosity_level)

  init-dispatch :
      (k : Key) (name : String) (v : Option String) (s : State u f)
      → (dispatch u f k name v s).1.init ≡ or_else s.init (init_by k v)
  unfolding dispatch
  init-dispatch quiet name v s = sym (or_else-none _)
  init-dispatch _ name v s = ground (arith, or_else-none s.init)

  source-dispatch :
      (k : Key) (name : String) (v : Option String) (s : State u f)
      → (dispatch u f k name v s).1.root_opts.source ≡ or_else s.root_opts.source (root_by u k v)
  unfolding dispatch
  source-dispatch quiet name v s = sym (or_else-none _)
  source-dispatch rootflags name (some v) s = source-add_opts f s.root_opts v ∙ sym (or_else-none _)
  source-dispatch _ name v s = ground (arith, or_else-none s.root_opts.source)

  resume-dispatch :
      (k : Key) (name : String) (v : Option String) (s : State u f)
      → (dispatch u f k name v s).1.resume_source ≡ or_else s.resume_source (resume_by u k v)
  unfolding dispatch
  resume-dispatch quiet name v s = sym (or_else-none _)
  resume-dispatch _ name v s = ground (arith, or_else-none s.resume_source)

  fstype-dispatch :
      (k : Key) (name : String) (v : Option String) (s : State u f)
      → (dispatch u f k name v s).1.root_opts.fstype ≡ or_else s.root_opts.fstype (fstype_by k v)
  unfolding dispatch
  fstype-dispatch quiet name v s = sym (or_else-none _)
  fstype-dispatch rootflags name (some v) s = fstype-add_opts f s.root_opts v ∙ sym (or_else-none _)
  fstype-dispatch _ name v s = ground (arith, or_else-none s.root_opts.fstype)

  mode-dispatch :
      (k : Key) (name : String) (v : Option String) (s : State u f)
      → (dispatch u f k name v s).1.root_opts.is_rw ≡ unwrap_or (mode_by k) s.root_opts.is_rw
  unfolding dispatch
  mode-dispatch quiet name v s = refl
  mode-dispatch rootflags name (some v) s = is_rw-add_opts f s.root_opts v
  mode-dispatch _ name v s = ground arith

  verdict-dispatch :
      (k : Key) (name : String) (v : Option String) (s : State u f)
      → (dispatch u f k name v s).0 ≡ verdict_by u k v
  unfolding dispatch
  verdict-dispatch quiet name v s = refl
  verdict-dispatch _ name v s = ground arith

  pub level-parse_arg :
      (s : State u f) (arg : String)
      → (parse_arg u f s arg).1.verbosity_level ≡ or_else s.verbosity_level (by level_by arg)
  unfolding parse_arg
  level-parse_arg s arg = let (k, v) = split_arg arg in level-dispatch (key_of k) k v s

  pub init-parse_arg :
      (s : State u f) (arg : String)
      → (parse_arg u f s arg).1.init ≡ or_else s.init (by init_by arg)
  unfolding parse_arg
  init-parse_arg s arg = let (k, v) = split_arg arg in init-dispatch (key_of k) k v s

  pub source-parse_arg :
      (s : State u f) (arg : String)
      → (parse_arg u f s arg).1.root_opts.source ≡ or_else s.root_opts.source (by (root_by u) arg)
  unfolding parse_arg
  source-parse_arg s arg = let (k, v) = split_arg arg in source-dispatch (key_of k) k v s

  pub resume-parse_arg :
      (s : State u f) (arg : String)
      → (parse_arg u f s arg).1.resume_source ≡ or_else s.resume_source (by (resume_by u) arg)
  unfolding parse_arg
  resume-parse_arg s arg = let (k, v) = split_arg arg in resume-dispatch (key_of k) k v s

  pub fstype-parse_arg :
      (s : State u f) (arg : String)
      → (parse_arg u f s arg).1.root_opts.fstype ≡ or_else s.root_opts.fstype (by fstype_by arg)
  unfolding parse_arg
  fstype-parse_arg s arg = let (k, v) = split_arg arg in fstype-dispatch (key_of k) k v s

  pub mode-parse_arg :
      (s : State u f) (arg : String)
      → (parse_arg u f s arg).1.root_opts.is_rw
        ≡ unwrap_or (by (λ k v. mode_by k) arg) s.root_opts.is_rw
  unfolding parse_arg
  mode-parse_arg s arg = let (k, v) = split_arg arg in mode-dispatch (key_of k) k v s

  pub verdict-parse_arg :
      (s : State u f) (arg : String) → (parse_arg u f s arg).0 ≡ by (verdict_by u) arg
  unfolding parse_arg
  verdict-parse_arg s arg = let (k, v) = split_arg arg in verdict-dispatch (key_of k) k v s
