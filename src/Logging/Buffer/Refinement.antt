-- ===== src/Logging/Buffer/Refinement.antt =====
-- The buffered logger against a console that knew its threshold from the start.
use mathlib.Core.List.{append_assoc, append-nil}
use ignited.Prelude.{◌≤◌, String, ◌≡◌, refl, ◌∙◌, sym, true, false, List, [], ◌∷◌, ◌++◌}
use ignited.Logging.{VerbosityLevel, rank, KConsole, change_verbosity, print_message_ln}
use ignited.Logging.Visible.{visible_lines, drain_lem, Subsequence, keep, visible_lines_mono}
use ignited.Logging.Buffer.{KmsgBufEntry, KmsgBuf, new, kany, println_as, drain, flush_with_level}

-- A series of `kdebug`, `kwarn` and other calls.
unfoldable pub log_all : KmsgBuf → List KmsgBufEntry → KmsgBuf
log_all b [] = b
log_all b (e ∷ es) = log_all (kany b e.level e.args) es

pub println_as_lem :
    (kcon : KConsole) (level : VerbosityLevel) (args : String)
    → println_as kcon level args ≡ print_message_ln kcon level args
unfolding println_as
println_as_lem kcon VerbosityLevel.debug args = refl
println_as_lem kcon _ args = refl

log_all_unflushed :
    (kcon : KConsole) (old es : List KmsgBufEntry)
    → log_all (record { inner_con = kcon; inner_buf = old; flushed = false }) es
      ≡ record { inner_con = kcon; inner_buf = old ++ es; flushed = false }
unfolding log_all kany
log_all_unflushed kcon old [] = rw append-nil
log_all_unflushed kcon old (e ∷ es) = log_all_unflushed kcon (old ++ e ∷ []) es ∙ rw append_assoc

log_all_flushed :
    (kcon : KConsole) (old es : List KmsgBufEntry)
    → log_all (record { inner_con = kcon; inner_buf = old; flushed = true }) es
      ≡ record { inner_con = drain kcon es; inner_buf = old; flushed = true }
unfolding log_all kany drain
log_all_flushed kcon old [] = refl
log_all_flushed kcon old (e ∷ es) =
    rw println_as_lem (log_all_flushed (print_message_ln kcon e.level e.args) old es)

drain-append :
    (kcon : KConsole) (es fs : List KmsgBufEntry) → drain kcon (es ++ fs) ≡ drain (drain kcon es) fs
unfolding drain
drain-append kcon [] fs = refl
drain-append kcon (e ∷ es) fs = drain-append (print_message_ln kcon e.level e.args) es fs

pub log_all-append :
    (b : KmsgBuf) (es fs : List KmsgBufEntry) → log_all b (es ++ fs) ≡ log_all (log_all b es) fs
unfolding log_all
log_all-append b [] fs = refl
log_all-append b (e ∷ es) fs = log_all-append (kany b e.level e.args) es fs

-- Nothing is written before the flush.
pub inner_con-log_all :
    (kcon : KConsole) (es : List KmsgBufEntry) → (log_all (new kcon) es).inner_con ≡ kcon
unfolding new
inner_con-log_all kcon es = rw (log_all_unflushed kcon [] es)

-- Entries logged before the flush and after it come out as from a console that has the flushed
-- level from the start: those at or under the level are written, in the order of the calls, and
-- nothing else is.
pub flush_with_level_refines :
    (kcon : KConsole) (es fs : List KmsgBufEntry) (level : VerbosityLevel)
    → (log_all (flush_with_level (log_all (new kcon) es) level) fs).inner_con
      ≡ record { handle = kcon.handle ++ visible_lines level (es ++ fs); current_level = level }
unfolding new flush_with_level change_verbosity
flush_with_level_refines kcon es fs level =
    rw (log_all_unflushed kcon [] es, log_all_flushed)
      (sym (drain-append (change_verbosity kcon level) es fs)
        ∙ drain_lem (change_verbosity kcon level) (es ++ fs))

Subsequence-append :
    (xs : List String) {ys zs : List String} → Subsequence ys zs → Subsequence (xs ++ ys) (xs ++ zs)
Subsequence-append [] h = h
Subsequence-append (x ∷ xs) h = keep (Subsequence-append xs h)

-- What a flush writes with a lower level is written with a higher one too, in the same order.
pub flush_with_level_mono :
    (b : KmsgBuf) (low high : VerbosityLevel)
    → rank low ≤ rank high
    → Subsequence
        (flush_with_level b low).inner_con.handle
        (flush_with_level b high).inner_con.handle
unfolding flush_with_level change_verbosity
flush_with_level_mono b low high h =
    rw (drain_lem (change_verbosity b.inner_con low), drain_lem (change_verbosity b.inner_con high))
      (Subsequence-append b.inner_con.handle (visible_lines_mono low high b.inner_buf h))
