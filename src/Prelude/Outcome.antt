-- ===== src/Prelude/Outcome.antt =====
-- `Result<A, PrintableErrno<String>>`, with a third case for a panic (a slice out of range, `unwrap`
-- of an empty option, `todo!`).
use Prim.Native.String.{String}
use mathlib.Core.Path.{◌≡◌, refl}
use mathlib.Core.Logic.{◌⊎◌, inl, inr}

pub data Outcome {ℓ} (A : Type ℓ) : Type ℓ where
  ok : A → Outcome A
  err : String → Outcome A
  panic : Outcome A

-- `?` on a step without a value, and what comes after it.
infixl 5 ◌>>◌
abbrev pub ◌>>◌ {ℓ} : {B : Type ℓ} → Outcome (Unit {0}) → Outcome B → Outcome B
ok t >> later = later
err e >> later = err e
panic >> later = panic

-- A success of both parts.
pub >>-eq-ok {ℓ} :
    {B : Type ℓ} (step : Outcome (Unit {0})) (later : Outcome B) {b : B}
    → (step >> later) ≡ ok b
    → (step ≡ ok tt) × (later ≡ ok b)
>>-eq-ok (ok t) later h = (refl, h)
>>-eq-ok (err e) later h = cc
>>-eq-ok panic later h = cc

-- `Result::map_err`
abbrev pub map_err {ℓ} : {A : Type ℓ} → (String → String) → Outcome A → Outcome A
map_err f (ok a) = ok a
map_err f (err e) = err (f e)
map_err f panic = panic

pub ok-injective {ℓ} : {A : Type ℓ} {a b : A} → ok a ≡ ok b → a ≡ b
ok-injective h = cc

-- To split on a computed outcome and keep the equation.
pub Outcome-cases {ℓ} :
    {A : Type ℓ} (m : Outcome A)
    → ((a : A) × (m ≡ ok a)) ⊎ (((e : String) × (m ≡ err e)) ⊎ (m ≡ panic))
Outcome-cases (ok a) = inl (a, refl)
Outcome-cases (err e) = inr (inl (e, refl))
Outcome-cases panic = inr (inr refl)
