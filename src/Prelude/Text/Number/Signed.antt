-- ===== src/Prelude/Text/Number/Signed.antt =====
-- `i64::from_str` reads the decimal text of every `i64`.
use Prim.Native.Nat.{ℕ, zero, suc, ◌/◌, ◌%◌, ◌^◌, ◌<◌}
use Prim.Native.Char.{Char}
use Prim.Native.String.{String, [], ◌∷◌}
use mathlib.Core.Path.{◌≡◌, refl}
use mathlib.Core.Logic.{◌≢◌, inl, inr}
use mathlib.Core.Bool.{true}
use mathlib.Core.Option
use mathlib.Core.Option.{Option, some, none}
use native.Mathlib.Omega.{arith}
use text.Mathlib.TextLemmas.{cons-ne-nil}
use ignited.Prelude.Tests.{Bool-cases, ltb}
use ignited.Prelude.Text.{◌⧺◌}
use ignited.Prelude.Text.Number.{
  digit, show_from, show, digits, digits-show, magnitude, to_i64, i64_from_str, pos, negsuc,
}

show_from-cons-ne-nil : (f n : ℕ) (c : Char) (out : String) → show_from f n (c ∷ out) ≢ []
unfolding show_from
show_from-cons-ne-nil zero n c out = cons-ne-nil c out
show_from-cons-ne-nil (suc f) n c out = elim (Bool-cases (ltb n 10)) [
  | inl one ↦ rw one (cons-ne-nil (digit n) (c ∷ out))
  | inr more ↦ rw more (show_from-cons-ne-nil f (n / 10) (digit (n % 10)) (c ∷ out))
]

show-ne-nil : (n : ℕ) → show n ≢ []
unfolding show show_from
show-ne-nil n = elim (Bool-cases (ltb n 10)) [
  | inl one ↦ rw one (cons-ne-nil (digit n) [])
  | inr more ↦ rw more (show_from-cons-ne-nil n (n / 10) (digit (n % 10)) [])
]

from_str_of_digits :
    (s : String) (n : ℕ) → s ≢ [] → digits 0 s ≡ some n → n < 2 ^ 63 → i64_from_str s ≡ some (pos n)
unfolding i64_from_str Option.bind
from_str_of_digits [] n h e lt = absurd (h refl)
from_str_of_digits (c ∷ s) n h e lt = ground arith

pub from_str-show : (n : ℕ) → n < 2 ^ 63 → i64_from_str (show n) ≡ some (pos n)
from_str-show n lt = from_str_of_digits (show n) n (show-ne-nil n) (digits-show n) lt

magnitude_of_digits :
    (s : String) (n : ℕ)
    → s ≢ []
    → digits 0 s ≡ some (suc n)
    → n < 2 ^ 63
    → magnitude true s ≡ some (negsuc n)
unfolding magnitude to_i64 Option.bind
magnitude_of_digits [] n h e lt = absurd (h refl)
magnitude_of_digits (c ∷ s) n h e lt = rw e (ground arith)

pub from_str-minus_show : (n : ℕ) → n < 2 ^ 63 → i64_from_str ("-" ⧺ show (suc n)) ≡ some (negsuc n)
unfolding i64_from_str
from_str-minus_show n lt =
    magnitude_of_digits (show (suc n)) n (show-ne-nil (suc n)) (digits-show (suc n)) lt
