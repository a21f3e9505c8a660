-- ===== src/Time.antt =====
-- `InitramfsTimer` of src/time.rs: the two clocks at the start of the program, in microseconds. What
-- the clocks and the destination answer is a parameter. A `u64` is a number below 2 ^ 64.
mod Tests
use ignited.Prelude.{
  ℕ, ◌+◌, ◌*◌, ◌/◌, ◌%◌, ◌^◌, ◌≤◌, ◌<◌, String, ◌≡◌, ◌⊎◌, inl, inr, List, [], ◌∷◌, ◌++◌, arith,
}
use ignited.Prelude.Text.{◌⧺◌}
use ignited.Prelude.Text.Number.{show}
use ignited.Prelude.Outcome.{Outcome, ok, err, panic, ◌>>◌, map_err}
use ignited.Logging.{KConsole, crit, print_message_ln}

-- What `clock_gettime` returns, as the two `u64` that the program casts to.
pub record TimeSpec : Type 0 where
  pub tv_sec : ℕ
  pub tv_nsec : ℕ

-- `(t_sec * 1000000) + (t_nsec / 1000)`, with the wrap-around of a release build.
unfoldable pub micros : TimeSpec → ℕ
micros t = ((t.tv_sec * 1000000) % 2 ^ 64 + t.tv_nsec / 1000) % 2 ^ 64

unfoldable pub read_clock : Outcome TimeSpec → String → Outcome ℕ
unfolding micros
read_clock (ok t) id = ok (micros t)
read_clock (err e) id = err ("unable to read clock " ⧺ id)
read_clock panic id = panic

pub record InitramfsTimer : Type 0 where
  pub realtime : Outcome ℕ
  pub monotonic : Outcome ℕ

-- A `ClockId` of the `nix` crate is printed as its number.
unfoldable pub start : Outcome TimeSpec → Outcome TimeSpec → InitramfsTimer
unfolding read_clock
start realtime monotonic = record {
  realtime = read_clock realtime "0";
  monotonic = read_clock monotonic "1";
}

abbrev log_clock : (String → String) → KConsole → Outcome ℕ → KConsole
log_clock printed kmsg (err e) = print_message_ln kmsg crit (printed e)
log_clock printed kmsg _ = kmsg

-- What is printed for an error with a message, its errno included, is a parameter.
unfoldable pub log : (String → String) → InitramfsTimer → KConsole → KConsole
log printed t kmsg = log_clock printed (log_clock printed kmsg t.realtime) t.monotonic

-- `unwrap_or_default`
abbrev pub or_zero : Outcome ℕ → ℕ
or_zero (ok n) = n
or_zero _ = 0

unfoldable pub timestamp : InitramfsTimer → String
timestamp t =
    "initrd-timestamp=" ⧺ show (or_zero t.realtime) ⧺ " " ⧺ show (or_zero t.monotonic) ⧺ "\n"

-- What a destination has been given, and what it answers to the writing and to the seeking.
pub record Destination : Type 0 where
  pub written : List String
  pub writes : Outcome (Unit {0})
  pub seeks : Outcome (Unit {0})

unfoldable pub write : InitramfsTimer → Destination → Outcome (Unit {0}) × Destination
unfolding timestamp
write t dest = elim dest.writes [
  | ok u ↦ (
    map_err (λ io. "unable to reset timer destination for systemd: " ⧺ io) dest.seeks,
    record dest { written = dest.written ++ timestamp t ∷ [] },
  )
  | err io ↦ (err ("unable to write timer to destination for systemd: " ⧺ io), dest)
  | panic ↦ (panic, dest)
]

-- The earlier of two readings of a clock.
abbrev pub Before : TimeSpec → TimeSpec → Type 0
Before s t = (s.tv_sec < t.tv_sec) ⊎ ((s.tv_sec ≡ t.tv_sec) × (s.tv_nsec ≤ t.tv_nsec))

-- A clock within the first 292,000 years, with fewer than 10 ^ 9 nanoseconds.
pub record IsNear (t : TimeSpec) : Type 0 where
  pub few_seconds : t.tv_sec < 9223372036854
  pub below_second : t.tv_nsec < 1000000000

-- Nothing wraps: the microseconds are those of the reading, rounded down, and fit an `i64` too.
pub micros_bounds :
    (t : TimeSpec)
    → IsNear t
    → (micros t * 1000 ≤ t.tv_sec * 1000000000 + t.tv_nsec)
      × (t.tv_sec * 1000000000 + t.tv_nsec < micros t * 1000 + 1000)
      × (micros t < 2 ^ 63)
unfolding micros
micros_bounds t h = (omega arith, omega arith, omega arith)

-- Of two readings the earlier has no more microseconds.
pub micros_mono : (s t : TimeSpec) → IsNear s → IsNear t → Before s t → micros s ≤ micros t
unfolding micros
micros_mono s t hs ht (inl h) = omega arith
micros_mono s t hs ht (inr (e, h)) = omega arith
