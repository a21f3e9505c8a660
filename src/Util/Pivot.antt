-- ===== src/Util/Pivot.antt =====
-- `make_shutdown_pivot_dir` of src/util.rs: `mkdir` is called until it answers something other than
-- ENOENT. The answers of the calls are a parameter, by the number of calls made before.
use mathlib.Core.Path.{subst}
use ignited.Prelude.{ℕ, zero, suc, ◌+◌, ◌<◌, ◌≡◌, ◌≢◌, refl, Option, none, some, arith}
use ignited.Prelude.Outcome.{Outcome, ok, err}
use ignited.Mount.Mounting.{Made, made, enoent, refused}

-- With fuel for the calls; the result comes with the number of calls made.
unfoldable pub make_shutdown_pivot_dir : (ℕ → Made) → ℕ → ℕ → Option (Outcome (Unit {0}) × ℕ)
make_shutdown_pivot_dir answer zero calls = none
make_shutdown_pivot_dir answer (suc n) calls = elim (answer calls) [
  | made ↦ some (ok tt, suc calls)
  | enoent ↦ make_shutdown_pivot_dir answer n (suc calls)
  | refused ↦ some (err "FATAL: unable to create /run/initramfs", suc calls)
]

-- The result for an answer that ends the loop.
abbrev pub verdict : Made → Outcome (Unit {0})
verdict made = ok tt
verdict _ = err "FATAL: unable to create /run/initramfs"

ends_at :
    (answer : ℕ → Made) (calls : ℕ)
    → answer calls ≢ enoent
    → (n : ℕ)
    → make_shutdown_pivot_dir answer (suc n) calls ≡ some (verdict (answer calls), suc calls)
unfolding make_shutdown_pivot_dir
ends_at answer calls h n = ground arith

-- If the calls answer ENOENT up to a first one that does not, the loop ends with that one and its
-- answer, given fuel for it.
pub make_shutdown_pivot_dir_ends :
    (answer : ℕ → Made) (missing calls : ℕ)
    → ((i : ℕ) → i < missing → answer (calls + i) ≡ enoent)
    → answer (calls + missing) ≢ enoent
    → (n : ℕ) → missing < n
    → make_shutdown_pivot_dir answer n calls
      ≡ some (verdict (answer (calls + missing)), suc (calls + missing))
unfolding make_shutdown_pivot_dir
make_shutdown_pivot_dir_ends answer missing calls before after zero enough = absurd (omega arith)
make_shutdown_pivot_dir_ends answer zero calls before after (suc n) enough =
    let same : calls + 0 ≡ calls = omega arith in
    rw same (ends_at answer calls (rw same at after) n)
make_shutdown_pivot_dir_ends answer (suc missing) calls before after (suc n) enough =
    let first : answer calls ≡ enoent =
      subst (λ k. answer k ≡ enoent) (omega arith) (before 0 (omega arith)) in
    let shift : calls + suc missing ≡ suc calls + missing = omega arith in
    rw (make_shutdown_pivot_dir, first)
      (rw shift (
        make_shutdown_pivot_dir_ends answer missing (suc calls)
          (λ i below. subst (λ k. answer k ≡ enoent) (omega arith) (before (suc i) (omega arith)))
          (rw shift at after) n (omega arith)))

-- If every call answers ENOENT, as while the directory above is missing, no fuel is enough: the
-- loop does not end, and nothing is done for the directory above.
pub make_shutdown_pivot_dir_loops :
    (answer : ℕ → Made)
    → ((i : ℕ) → answer i ≡ enoent)
    → (n calls : ℕ) → make_shutdown_pivot_dir answer n calls ≡ none
unfolding make_shutdown_pivot_dir
make_shutdown_pivot_dir_loops answer missing zero calls = refl
make_shutdown_pivot_dir_loops answer missing (suc n) calls =
    rw (make_shutdown_pivot_dir, missing calls)
      (make_shutdown_pivot_dir_loops answer missing n (suc calls))
