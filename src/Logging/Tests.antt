-- ===== src/Logging/Tests.antt =====
-- Runs of the console and of the buffered logger.
use ignited.Prelude.{◌≡◌, refl, List, [], ◌∷◌, ◌++◌}
use ignited.Prelude.Text.Number.{show}
use ignited.Prelude.Outcome.{ok}
use ignited.Logging.{KConsole, debug, info, warn, err, entry_line}
use ignited.Logging.Buffer.{KmsgBufEntry, new, flush_with_level}
use ignited.Logging.Buffer.Refinement.{log_all, flush_with_level_refines}
use ignited.Logging.Visible.{visible_lines}
use ignited.Logging.Throttling.{SysctlAnswers}

abbrev kcon : KConsole
kcon = record { handle = "<6>ignited: hello\n" ∷ []; current_level = info }

abbrev early : List KmsgBufEntry
early =
    record { level = debug; args = "root=/dev/sda" }
    ∷ record { level = warn; args = "no value" }
    ∷ []

abbrev late : List KmsgBufEntry
late = record { level = err; args = "gave up" } ∷ record { level = info; args = "bye" } ∷ []

flush_with_level_refines_example :
    (log_all (flush_with_level (log_all (new kcon) early) warn) late).inner_con
    ≡ record { handle = kcon.handle ++ visible_lines warn (early ++ late); current_level = warn }
flush_with_level_refines_example = flush_with_level_refines kcon early late warn

abbrev verbose : KConsole
verbose = record { handle = []; current_level = debug }

abbrev throttled : SysctlAnswers
throttled = record { read = ok "ratelimit\n"; open_for_write = ok tt; write_all = ok tt }

-- The text of a line, and the lines that stay under the threshold.
warning_line : entry_line warn "no value" ≡ "<4>ignited: no value\n"
unfolding entry_line show
warning_line = refl

written_lines :
    visible_lines warn (early ++ late) ≡ "<4>ignited: no value\n" ∷ "<3>ignited: gave up\n" ∷ []
unfolding visible_lines entry_line show
written_lines = refl
