-- ===== src/Config/Cmdline/Console.antt =====
-- The console that `CmdlineArgs::parse_inner` leaves behind.
use mathlib.Core.Path.{ap₂}
use mathlib.Core.List.{foldl, append-nil}
use ignited.Prelude.{
  String, ◌≡◌, refl, ap, sym, ◌∙◌, ◌≢◌, List, [], ◌∷◌, ◌++◌, unwrap_or, find_map, concat_map,
}
use ignited.Prelude.Outcome.{Outcome, ok, err, panic}
use ignited.Logging.{KConsole, VerbosityLevel, default_level}
use ignited.Logging.Buffer.{KmsgBuf, KmsgBufEntry, new, flush_with_level}
use ignited.Logging.Buffer.Refinement.{
  log_all, log_all-append, flush_with_level_refines, inner_con-log_all,
}
use ignited.Logging.Visible.{visible_lines}
use ignited.Mount.Source.{UuidCrate}
use ignited.Mount.Options.{FlagsCrate}
use ignited.Config.Cmdline.{
  State, CmdlineArgs, parse_arg, start, finish_parse, finished, parse_inner,
}
use ignited.Config.Cmdline.Loop.{field-parse_loop, first-parse_loop, keep-parse_loop}
use ignited.Config.Cmdline.Arguments.{by, level_by}
use ignited.Config.Cmdline.Steps.{level-parse_arg}
use ignited.Config.Cmdline.Notes.{notes, buf-parse_arg}
use ignited.Config.Cmdline.Results.{looped, loop_ok}

foldl-log_all :
    (b : KmsgBuf) (args : List String)
    → foldl (λ (b : KmsgBuf) arg. log_all b (notes arg)) b args ≡ log_all b (concat_map notes args)
foldl-log_all b [] = unfold log_all in refl
foldl-log_all b (arg ∷ args) =
    foldl-log_all (log_all b (notes arg)) args
    ∙ sym (log_all-append b (notes arg) (concat_map notes args))

flushed_console :
    (kcon : KConsole) (es : List KmsgBufEntry) (level : VerbosityLevel)
    → (flush_with_level (log_all (new kcon) es) level).inner_con
      ≡ record { handle = kcon.handle ++ visible_lines level es; current_level = level }
unfolding log_all
flushed_console kcon es level =
    flush_with_level_refines kcon es [] level
    ∙ ap (λ l. record { handle = kcon.handle ++ visible_lines level l; current_level = level })
        (append-nil es)

module _ (u : UuidCrate) (f : FlagsCrate) (kcon : KConsole) (args : List String) where
  -- The level is that of the first argument that gives one, and informational if none does.
  abbrev pub level_of_all : VerbosityLevel
  level_of_all = unwrap_or (find_map (by level_by) args) default_level

  console_ok :
      (r : Outcome (Unit {0}) × State u f) {c : CmdlineArgs u.Uuid f.Flags}
      → (finished u f r).0 ≡ ok c
      → (finished u f r).1 ≡ (finish_parse u f r.1).1
  console_ok (ok t, s) h = refl
  console_ok (err e, s) h = cc
  console_ok (panic, s) h = cc

  -- After a success the console has the level of the first argument that gives one, and the
  -- informational level if none does. What was written in between are the messages that all
  -- arguments cause, in their order, at or under that level: also those of arguments before the
  -- one that gave the level.
  pub parse_inner-console :
      {c : CmdlineArgs u.Uuid f.Flags}
      → (parse_inner u f kcon args).0 ≡ ok c
      → (parse_inner u f kcon args).1 ≡ record {
        handle = kcon.handle ++ visible_lines level_of_all (concat_map notes args);
        current_level = level_of_all;
      }
  unfolding parse_inner finish_parse start
  parse_inner-console parsed =
      console_ok (looped u f kcon args) parsed
      ∙ ap₂ (λ b l. (flush_with_level b (unwrap_or l default_level)).inner_con)
          (field-parse_loop u f (λ s. s.kmsg_buf) (λ b arg. log_all b (notes arg))
              (buf-parse_arg u f) (start u f kcon) args (loop_ok u f kcon args parsed)
            ∙ foldl-log_all (new kcon) args)
          (first-parse_loop u f (λ s. s.verbosity_level) (by level_by) (level-parse_arg u f)
            (start u f kcon) args (loop_ok u f kcon args parsed))
      ∙ flushed_console kcon (concat_map notes args) level_of_all

  abbrev Unwritten : State u f → Type 0
  Unwritten s = (es : List KmsgBufEntry) × (s.kmsg_buf ≡ log_all (new kcon) es)

  keep-Unwritten : (s : State u f) (arg : String) → Unwritten s → Unwritten (parse_arg u f s arg).1
  keep-Unwritten s arg (es, e) = (
    es ++ notes arg,
    buf-parse_arg u f s arg
        ∙ ap (λ b. log_all b (notes arg)) e
        ∙ sym (log_all-append (new kcon) es (notes arg)),
  )

  failed_console :
      (r : Outcome (Unit {0}) × State u f)
      → Unwritten r.1
      → ((c : CmdlineArgs u.Uuid f.Flags) → (finished u f r).0 ≢ ok c)
      → (finished u f r).1 ≡ kcon
  failed_console (ok t, s) w h = absurd (h (finish_parse u f s).0 refl)
  failed_console (err e, s) (es, w) h =
      ap (λ (b : KmsgBuf). b.inner_con) w ∙ inner_con-log_all kcon es
  failed_console (panic, s) (es, w) h =
      ap (λ (b : KmsgBuf). b.inner_con) w ∙ inner_con-log_all kcon es

  -- After a failure the console is as it was: the buffered messages are dropped, and the level
  -- that an argument gave is not set.
  pub parse_inner-console_failed :
      ((c : CmdlineArgs u.Uuid f.Flags) → (parse_inner u f kcon args).0 ≢ ok c)
      → (parse_inner u f kcon args).1 ≡ kcon
  unfolding parse_inner start
  parse_inner-console_failed h =
      failed_console (looped u f kcon args)
        (keep-parse_loop u f Unwritten keep-Unwritten args (start u f kcon)
          ([], unfold log_all in refl))
        h
