-- ===== src/Prelude/Text/Number/Digits.antt =====
-- The characters of `format!("{}", n)`.
use Prim.Native.Nat.{ℕ, zero, suc, ◌/◌, ◌%◌, ◌<◌}
use Prim.Native.String.{String, [], ◌∷◌}
use mathlib.Core.Path.{◌≡◌, refl}
use mathlib.Core.Logic.{inl, inr}
use mathlib.Core.Bool.{false}
use native.Mathlib.Omega.{arith}
use ignited.Prelude.Tests.{Bool-cases, ltb}
use ignited.Prelude.Text.{has}
use ignited.Prelude.Text.Number.{digit, code-digit, show_from, show}

has_null-digit : (d : ℕ) (s : String) → d < 10 → has 0 s ≡ false → has 0 (digit d ∷ s) ≡ false
unfolding has
has_null-digit d s h rest = ground (arith, code-digit d, rest)

has_null-show_from :
    (f n : ℕ) (out : String) → has 0 out ≡ false → has 0 (show_from f n out) ≡ false
unfolding show_from
has_null-show_from zero n out h = h
has_null-show_from (suc f) n out h = elim (Bool-cases (ltb n 10)) [
  | inl one ↦ rw one (has_null-digit n out (ground (arith, one)) h)
  | inr more ↦ rw more (
      has_null-show_from f (n / 10) (digit (n % 10) ∷ out)
        (has_null-digit (n % 10) out (omega arith) h))
]

pub has_null-show : (n : ℕ) → has 0 (show n) ≡ false
unfolding show
has_null-show n = has_null-show_from (suc n) n [] (unfold has in refl)
