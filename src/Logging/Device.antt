-- ===== src/Logging/Device.antt =====
-- `KConsole::new` of src/early_logging/mod.rs and `KmsgFmt` of src/early_logging/kmsg.rs. Whether
-- /dev/kmsg can be opened is a parameter; what a handle has written is a list of texts.
use mathlib.Core.Path.{subst}
use ignited.Prelude.{
  ℕ, zero, suc, ◌+◌, ◌<◌, String, Bool, true, false, ◌≡◌, Option, none, some, List, [], arith,
}
use ignited.Prelude.Text.{◌⧺◌}
use ignited.Prelude.Outcome.{Outcome, ok, err, panic}
use ignited.Logging.{KConsole, default_level}

-- `KmsgFmt::new`
unfoldable pub new_handle : Outcome (Unit {0}) → Outcome (List String)
new_handle (ok u) = ok []
new_handle (err io) = err ("unable to open /dev/kmsg: " ⧺ io)
new_handle panic = panic

abbrev console_of : Outcome (List String) → Outcome KConsole
console_of (ok handle) = ok (record { handle = handle; current_level = default_level })
console_of (err e) = err e
console_of panic = panic

-- `KConsole::new`
unfoldable pub new_console : Outcome (Unit {0}) → Outcome KConsole
unfolding new_handle
new_console opened = console_of (new_handle opened)

-- `KmsgFmt::clone`: the device is opened again until that works, with fuel for the calls. The answers
-- are by the number of calls before; the result is the number of calls made.
unfoldable pub clone_handle : (ℕ → Bool) → ℕ → ℕ → Option ℕ
clone_handle opens zero calls = none
clone_handle opens (suc n) calls = elim (opens calls) [
  | true ↦ some (suc calls)
  | false ↦ clone_handle opens n (suc calls)
]

-- The loop ends with the first call that works, given fuel for it.
pub clone_handle_ends :
    (opens : ℕ → Bool) (failures calls : ℕ)
    → ((i : ℕ) → i < failures → opens (calls + i) ≡ false)
    → opens (calls + failures) ≡ true
    → (n : ℕ) → failures < n
    → clone_handle opens n calls ≡ some (suc (calls + failures))
unfolding clone_handle
clone_handle_ends opens failures calls before after zero enough = absurd (omega arith)
clone_handle_ends opens zero calls before after (suc n) enough =
    let same : calls + 0 ≡ calls = omega arith in
    rw (clone_handle, subst (λ k. opens k ≡ true) same after, same)
clone_handle_ends opens (suc failures) calls before after (suc n) enough =
    let first : opens calls ≡ false =
      subst (λ k. opens k ≡ false) (omega arith) (before 0 (omega arith)) in
    let shift : calls + suc failures ≡ suc calls + failures = omega arith in
    rw (clone_handle, first)
      (rw shift (
        clone_handle_ends opens failures (suc calls)
          (λ i below. subst (λ k. opens k ≡ false) (omega arith) (before (suc i) (omega arith)))
          (rw shift at after) n (omega arith)))
