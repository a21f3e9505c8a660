-- ===== src/Prelude/Text/Number.antt =====
-- Decimal texts: numbers by `format!`, and `i64::from_str`.
pub mod Signed
pub mod Digits
use Prim.Native.Nat.{ℕ, zero, suc, ◌+◌, ◌-◌, ◌*◌, ◌/◌, ◌%◌, ◌^◌, ◌<◌}
use Prim.Native.Char.{Char, code}
use Prim.Native.String.{String, [], ◌∷◌}
use mathlib.Core.Path.{◌≡◌, refl, ◌∙◌, ap}
use mathlib.Core.Logic.{inl, inr}
use mathlib.Core.Bool.{Bool, true, false, ◌&&◌}
use mathlib.Core.Option
use mathlib.Core.Option.{Option, none, some}
use native.Mathlib.Omega.{arith}
use ignited.Prelude.Tests.{eqb, leb, ltb, if◌then◌else◌, Bool-cases}

pub digit : ℕ → Char
digit zero = "0"
digit (suc zero) = "1"
digit (suc (suc zero)) = "2"
digit (suc (suc (suc zero))) = "3"
digit (suc (suc (suc (suc zero)))) = "4"
digit (suc (suc (suc (suc (suc zero))))) = "5"
digit (suc (suc (suc (suc (suc (suc zero)))))) = "6"
digit (suc (suc (suc (suc (suc (suc (suc zero))))))) = "7"
digit (suc (suc (suc (suc (suc (suc (suc (suc zero)))))))) = "8"
digit _ = "9"

-- The digits of `n` in front of a text; a number below the fuel has no more digits than that.
pub show_from : ℕ → ℕ → String → String
unfolding digit
show_from zero n out = out
show_from (suc f) n out =
    let longer = show_from f (n / 10) (digit (n % 10) ∷ out) in
    if ltb n 10 then digit n ∷ out else longer

-- `format!("{}", n)`
unfoldable pub show : ℕ → String
unfolding show_from
show n = show_from (suc n) n []

abbrev pub is_digit : ℕ → Bool
is_digit c = leb 48 c && leb c 57

-- The value of a text of digits, behind a number that was read before it.
unfoldable pub digits : ℕ → String → Option ℕ
digits n [] = some n
digits n (c ∷ s) =
    let rest = digits (n * 10 + (code c - 48)) s in if is_digit (code c) then rest else none

-- `negsuc n` is -(n + 1).
pub data ℤ : Type 0 where
  pos : ℕ → ℤ
  negsuc : ℕ → ℤ

-- The `i64` that is `n`, or `-n` where the sign is a minus; `none` on overflow.
pub to_i64 : Bool → ℕ → Option ℤ
to_i64 false n = if ltb n (2 ^ 63) then some (pos n) else none
to_i64 true zero = some (pos 0)
to_i64 true (suc n) = if ltb n (2 ^ 63) then some (negsuc n) else none

-- A text of one digit at least.
pub magnitude : Bool → String → Option ℤ
magnitude minus [] = none
magnitude minus (c ∷ s) = Option.bind (digits 0 (c ∷ s)) (to_i64 minus)

-- `i64::from_str`: a sign or none, then digits.
unfoldable pub i64_from_str : String → Option ℤ
unfolding magnitude to_i64 digits
i64_from_str [] = none
i64_from_str (c ∷ s) =
    if eqb (code c) b'-'
    then magnitude true s
    else if eqb (code c) b'+'
    then magnitude false s
    else magnitude false (c ∷ s)

pub code-digit : (d : ℕ) → d < 10 → code (digit d) ≡ 48 + d
unfolding digit
code-digit zero h = refl
code-digit (suc zero) h = refl
code-digit (suc (suc zero)) h = refl
code-digit (suc (suc (suc zero))) h = refl
code-digit (suc (suc (suc (suc zero)))) h = refl
code-digit (suc (suc (suc (suc (suc zero))))) h = refl
code-digit (suc (suc (suc (suc (suc (suc zero)))))) h = refl
code-digit (suc (suc (suc (suc (suc (suc (suc zero))))))) h = refl
code-digit (suc (suc (suc (suc (suc (suc (suc (suc zero)))))))) h = refl
code-digit (suc (suc (suc (suc (suc (suc (suc (suc (suc zero))))))))) h = refl
code-digit (suc (suc (suc (suc (suc (suc (suc (suc (suc (suc d)))))))))) h = absurd (omega arith)

digits-digit : (n d : ℕ) (s : String) → d < 10 → digits n (digit d ∷ s) ≡ digits (n * 10 + d) s
unfolding digits
digits-digit n d s h = ground (arith, code-digit d)

-- Reading the digits back, with whatever text follows them.
digits-show_from : (f n : ℕ) (out : String) → n < f → digits 0 (show_from f n out) ≡ digits n out
unfolding show_from
digits-show_from zero n out h = elim h [ ]
digits-show_from (suc f) n out h = elim (Bool-cases (ltb n 10)) [
  | inl one ↦ rw one (digits-digit 0 n out (ground arith) ∙ ap (λ k. digits k out) (omega arith))
  | inr more ↦ rw more (
      digits-show_from f (n / 10) (digit (n % 10) ∷ out) (ground arith)
      ∙ digits-digit (n / 10) (n % 10) out (omega arith)
      ∙ ap (λ k. digits k out) (omega arith))
]

pub digits-show : (n : ℕ) → digits 0 (show n) ≡ some n
unfolding show
digits-show n = digits-show_from (suc n) n [] (omega arith) ∙ (unfold digits in refl)
