-- ===== src/Config/Cmdline/Results.antt =====
-- What `CmdlineArgs::parse_inner` returns and leaves, read off the list of arguments.
use ignited.Prelude.{
  String, false, ◌≡◌, refl, ap, ◌∙◌, none, List, ◌++◌, arith, unwrap_or, find_map, find_last_map,
  foldl-overwrite, concat_map, foldl-append_each,
}
use ignited.Prelude.Outcome.{Outcome, ok, err, panic}
use ignited.Logging.{KConsole}
use ignited.Mount.Source.{UuidCrate}
use ignited.Mount.Options.{FlagsCrate, FlagsLaws, MsFlag}
use ignited.Mount.Options.Words.{joined, other_words}
use ignited.Mount.Options.Effect.{last_word}
use ignited.Prelude.Assoc.{get}
use ignited.Module.Params.{get_params}
use ignited.Config.Cmdline.{
  CmdlineArgs, State, init_default_path, parse_loop, start, finish_parse, finished, parse_inner,
}
use ignited.Config.Cmdline.Loop.{field-parse_loop, first-parse_loop, verdicts, verdict-parse_loop}
use ignited.Config.Cmdline.Arguments.{
  by, init_by, fstype_by, mode_by, root_by, resume_by, verdict_by,
}
use ignited.Config.Cmdline.Steps.{
  init-parse_arg, source-parse_arg, resume-parse_arg, fstype-parse_arg, mode-parse_arg,
  verdict-parse_arg,
}
use ignited.Config.Cmdline.Contents.{
  root_words, params_for, options-parse_arg, contains-parse_arg, params-parse_arg, foldl-joined,
  foldl-last_word,
}

-- An outcome without its value.
abbrev pub without {ℓ} : {A : Type ℓ} → Outcome A → Outcome (Unit {0})
without (ok a) = ok tt
without (err e) = err e
without panic = panic

module _ (u : UuidCrate) (f : FlagsCrate) (kcon : KConsole) (args : List String) where
  abbrev pub looped : Outcome (Unit {0}) × State u f
  looped = parse_loop u f (start u f kcon) args

  without-finished : (r : Outcome (Unit {0}) × State u f) → without (finished u f r).0 ≡ r.0
  without-finished (ok t, s) = refl
  without-finished (err e, s) = refl
  without-finished (panic, s) = refl

  -- The parsing succeeds unless an argument is refused, and then its outcome is that of the first
  -- such argument: an error for a `root` or `resume` that names no source and for an `init` path
  -- with a null character, a panic for the three `rd.luks` keys. Whatever an earlier argument
  -- settled, a later one is still checked.
  pub without-parse_inner :
      without (parse_inner u f kcon args).0 ≡ verdicts u f (by (verdict_by u)) args
  unfolding parse_inner
  without-parse_inner =
      without-finished looped
      ∙ verdict-parse_loop u f (by (verdict_by u)) (verdict-parse_arg u f) (start u f kcon) args

  finished_ok :
      (r : Outcome (Unit {0}) × State u f) {c : CmdlineArgs u.Uuid f.Flags}
      → (finished u f r).0 ≡ ok c
      → (r.0 ≡ ok tt)
        × (c ≡ (finish_parse u f r.1).0)
        × ((finished u f r).1 ≡ (finish_parse u f r.1).1)
  finished_ok (ok t, s) h = (refl, ground arith, refl)
  finished_ok (err e, s) h = cc
  finished_ok (panic, s) h = cc

  module _ {c : CmdlineArgs u.Uuid f.Flags} (parsed : (parse_inner u f kcon args).0 ≡ ok c) where
    pub loop_ok : looped.0 ≡ ok tt
    unfolding parse_inner
    loop_ok = (finished_ok looped parsed).0

    value_ok : c ≡ (finish_parse u f looped.1).0
    unfolding parse_inner
    value_ok = (finished_ok looped parsed).1

    -- After a success the init path, the root source, its filesystem type and the resume source
    -- are each that of the first argument that gives one; the init path is /sbin/init if none does.
    pub parse_inner_first :
        (c.init ≡ unwrap_or (find_map (by init_by) args) init_default_path)
        × (c.root_opts.source ≡ find_map (by (root_by u)) args)
        × (c.root_opts.fstype ≡ find_map (by fstype_by) args)
        × (c.resume_source ≡ find_map (by (resume_by u)) args)
    unfolding finish_parse start
    parse_inner_first = rw value_ok (
      ap (λ o. unwrap_or o init_default_path)
          (first-parse_loop u f (λ s. s.init) (by init_by) (init-parse_arg u f) (start u f kcon)
            args loop_ok),
      first-parse_loop u f (λ s. s.root_opts.source) (by (root_by u)) (source-parse_arg u f)
          (start u f kcon) args loop_ok,
      first-parse_loop u f (λ s. s.root_opts.fstype) (by fstype_by) (fstype-parse_arg u f)
          (start u f kcon) args loop_ok,
      first-parse_loop u f (λ s. s.resume_source) (by (resume_by u)) (resume-parse_arg u f)
          (start u f kcon) args loop_ok,
    )

    -- After a success the root is mounted writable exactly if the last of the arguments `ro` and
    -- `rw` is `rw`; read-only if there is neither.
    pub parse_inner_mode :
        c.root_opts.is_rw ≡ unwrap_or (find_last_map (by (λ k v. mode_by k)) args) false
    unfolding finish_parse start
    parse_inner_mode = rw value_ok (
        field-parse_loop u f (λ s. s.root_opts.is_rw)
          (λ b arg. unwrap_or (by (λ k v. mode_by k) arg) b) (mode-parse_arg u f) (start u f kcon)
          args loop_ok
        ∙ foldl-overwrite (by (λ k v. mode_by k)) false args)

    -- After a success the option text and the flags of the root mount are those of all words of
    -- all `rootflags=` arguments, taken in order: the words that are no flags, joined by commas,
    -- and for each flag what the last word that names it says.
    pub parse_inner_rootflags :
        FlagsLaws f
        → (c.root_opts.options ≡ joined none (other_words (concat_map root_words args)))
          × ((a : MsFlag)
              → f.contains c.root_opts.flags a
                ≡ unwrap_or (last_word a (concat_map root_words args)) false)
    unfolding finish_parse start
    parse_inner_rootflags laws = rw value_ok (
      field-parse_loop u f (λ s. s.root_opts.options)
            (λ o arg. joined o (other_words (root_words arg))) (options-parse_arg u f)
            (start u f kcon) args loop_ok
          ∙ foldl-joined none args,
      λ a.
          field-parse_loop u f (λ s. f.contains s.root_opts.flags a)
            (λ b arg. unwrap_or (last_word a (root_words arg)) b) (contains-parse_arg u f laws a)
            (start u f kcon) args loop_ok
          ∙ foldl-last_word a (f.contains (start u f kcon).root_opts.flags a) args
          ∙ ap (unwrap_or (last_word a (concat_map root_words args))) (laws.contains-empty a),
    )

    -- After a success a module is given, in order, every parameter whose key names it, whatever
    -- the dashes and underscores of either name.
    pub parse_inner_params :
        (j : String) → get_params c.mod_params j ≡ concat_map (params_for j) args
    unfolding finish_parse start
    parse_inner_params j = rw value_ok (
        field-parse_loop u f (λ s. get_params s.mod_params j) (λ l arg. l ++ params_for j arg)
          (params-parse_arg u f j) (start u f kcon) args loop_ok
        ∙ foldl-append_each (params_for j) (get_params (start u f kcon).mod_params j) args
        ∙ (unfold get_params get in refl))
