-- ===== src/Time/Tests.antt =====
-- Readings of the clocks.
use ignited.Prelude.{◌+◌, ◌*◌, ◌≤◌, ◌<◌, ◌^◌, ◌≡◌, refl, arith}
use ignited.Prelude.Text.Number.{show}
use ignited.Prelude.Outcome.{ok, err}
use ignited.Time.{TimeSpec, micros, micros_bounds, start, timestamp}

abbrev booted : TimeSpec
booted = record { tv_sec = 1650000000; tv_nsec = 123456789 }

micros_bounds_example :
    (micros booted * 1000 ≤ booted.tv_sec * 1000000000 + booted.tv_nsec)
    × (booted.tv_sec * 1000000000 + booted.tv_nsec < micros booted * 1000 + 1000)
    × (micros booted < 2 ^ 63)
micros_bounds_example =
    micros_bounds booted (record { few_seconds = omega arith; below_second = omega arith })

-- A clock that could not be read is written as zero.
one_clock :
    timestamp (start (err "EINVAL") (ok (record { tv_sec = 0; tv_nsec = 5000 })))
    ≡ "initrd-timestamp=0 5\n"
unfolding timestamp start show
one_clock = refl
