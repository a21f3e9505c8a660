-- ===== src/Prelude/Run.antt =====
-- Calls on a state that end with an outcome. The state comes back behind a failure too, as what was
-- done stays done.
use Prim.Native.String.{String}
use mathlib.Core.Path.{◌≡◌, refl}
use mathlib.Core.Bool.{Bool, true, false}
use ignited.Prelude.Outcome.{Outcome, ok, err, panic}

abbrev pub Run : Type 0 → Type 0 → Type 0
Run S A = S → Outcome A × S

module _ {S A B : Type 0} where
  -- What comes behind a call: its error or panic, or the next one.
  abbrev pub go_on : (A → Run S B) → Outcome A × S → Outcome B × S
  go_on next (ok a, s) = next a s
  go_on next (err e, s) = (err e, s)
  go_on next (panic, s) = (panic, s)

  -- What both calls did if the two succeed.
  pub go_on_ok :
      (next : A → Run S B) (r : Outcome A × S) {b : B} {s' : S}
      → go_on next r ≡ (ok b, s')
      → (a : A) × (s : S) × (r ≡ (ok a, s)) × (next a s ≡ (ok b, s'))
  go_on_ok next (ok a, s) h = (a, s, refl, h)
  go_on_ok next (err e, s) h = cc
  go_on_ok next (panic, s) h = cc

  pub go_on_panic :
      (next : A → Run S B) (r : Outcome A × S) → r.0 ≡ panic → (go_on next r).0 ≡ panic
  go_on_panic next (ok a, s) h = cc
  go_on_panic next (err e, s) h = cc
  go_on_panic next (panic, s) h = refl

infixl 5 ◌>>=◌ ◌>>◌
abbrev pub ◌>>=◌ : {S A B : Type 0} → Run S A → (A → Run S B) → Run S B
◌>>=◌ call next s = go_on next (call s)

abbrev pub ◌>>◌ : {S A B : Type 0} → Run S A → Run S B → Run S B
◌>>◌ call later s = go_on (λ a. later) (call s)

-- A value that needs no call, or the failure to have one.
abbrev pub give : {S A : Type 0} → Outcome A → Run S A
give o s = (o, s)

-- A call that says whether it worked, with the message for when it did not.
abbrev pub printable : {S : Type 0} → String → (S → Bool × S) → Run S (Unit {0})
printable message call s =
    let (worked, s') = call s in (elim worked [ true ↦ ok tt | false ↦ err message ], s')
