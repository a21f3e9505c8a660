-- ===== src/Mount/Efi/Utf16.antt =====
-- UTF-16: reading it as `String::from_utf16` does, and writing it.
use Prim.Native.Nat.{compare, Ordering}
use Prim.Native.Char.{Char, char, IsLt, code}
use Prim.Native.String.{String, [], ◌∷◌}
use mathlib.Core.Option
use ignited.Prelude.{
  ℕ, ◌+◌, ◌-◌, ◌*◌, ◌/◌, ◌%◌, ◌<◌, Bool, true, false, ◌&&◌, ◌≡◌, ◌⊎◌, refl, ap, ◌∙◌, Option, none,
  some, List, ltb, leb, arith, Bool-cases, inl, inr, if◌then◌else◌,
}

-- The three comparisons that make a number a scalar value, as a type.
abbrev Both : Ordering → Ordering → Type 0
Both Ordering.lt o = IsLt o
Both Ordering.eq _ = ⊥
Both Ordering.gt _ = ⊥

abbrev Scalar : Ordering → Ordering → Ordering → Type 0
Scalar Ordering.lt _ _ = Unit
Scalar Ordering.eq p q = Both p q
Scalar Ordering.gt p q = Both p q

decide_both : (p q : Ordering) → Option (Both p q)
decide_both Ordering.lt Ordering.lt = some tt
decide_both _ _ = none

decide_scalar : (o p q : Ordering) → Option (Scalar o p q)
unfolding decide_both
decide_scalar Ordering.lt p q = some tt
decide_scalar Ordering.eq p q = decide_both p q
decide_scalar Ordering.gt p q = decide_both p q

-- The character with this number, if it is a scalar value: `char::from_u32`.
of_code : ℕ → Option Char
unfolding decide_scalar
of_code n =
    Option.map (char n) (decide_scalar (compare n 55296) (compare 57343 n) (compare n 1114112))

decide_both_lem : (p q : Ordering) (x : Both p q) → decide_both p q ≡ some x
unfolding decide_both
decide_both_lem Ordering.lt Ordering.lt x = refl
decide_both_lem Ordering.lt Ordering.eq x = absurd x
decide_both_lem Ordering.lt Ordering.gt x = absurd x
decide_both_lem Ordering.eq q x = absurd x
decide_both_lem Ordering.gt q x = absurd x

decide_scalar_lem : (o p q : Ordering) (x : Scalar o p q) → decide_scalar o p q ≡ some x
unfolding decide_scalar
decide_scalar_lem Ordering.lt p q x = refl
decide_scalar_lem Ordering.eq p q x = decide_both_lem p q x
decide_scalar_lem Ordering.gt p q x = decide_both_lem p q x

of_code-code : (c : Char) → of_code (code c) ≡ some c
unfolding of_code
of_code-code (char n x) =
    ap (Option.map (char n))
      (decide_scalar_lem (compare n 55296) (compare 57343 n) (compare n 1114112) x)

abbrev Bounds : ℕ → Type 0
Bounds n = (n < 55296) ⊎ ((57343 < n) × (n < 1114112))

Bounds-of_scalar :
    (n : ℕ) (o p q : Ordering)
    → compare n 55296 ≡ o
    → compare 57343 n ≡ p
    → compare n 1114112 ≡ q
    → Scalar o p q
    → Bounds n
Bounds-of_scalar n Ordering.lt p q e f g x = inl (ground arith)
Bounds-of_scalar n Ordering.eq Ordering.lt Ordering.lt e f g x = inr (ground arith, ground arith)
Bounds-of_scalar n Ordering.gt Ordering.lt Ordering.lt e f g x = inr (ground arith, ground arith)
Bounds-of_scalar n Ordering.eq Ordering.lt Ordering.eq e f g x = absurd x
Bounds-of_scalar n Ordering.eq Ordering.lt Ordering.gt e f g x = absurd x
Bounds-of_scalar n Ordering.gt Ordering.lt Ordering.eq e f g x = absurd x
Bounds-of_scalar n Ordering.gt Ordering.lt Ordering.gt e f g x = absurd x
Bounds-of_scalar n Ordering.eq Ordering.eq q e f g x = absurd x
Bounds-of_scalar n Ordering.eq Ordering.gt q e f g x = absurd x
Bounds-of_scalar n Ordering.gt Ordering.eq q e f g x = absurd x
Bounds-of_scalar n Ordering.gt Ordering.gt q e f g x = absurd x

-- A scalar value is below 0x110000 and no surrogate.
Bounds-code : (c : Char) → Bounds (code c)
Bounds-code (char n x) =
    Bounds-of_scalar n (compare n 55296) (compare 57343 n) (compare n 1114112) refl refl refl x

pub is_high : ℕ → Bool
is_high u = leb 0xd800 u && ltb u 0xdc00

pub is_low : ℕ → Bool
is_low u = leb 0xdc00 u && ltb u 0xe000

abbrev push_char : Option Char → Option String → Option String
push_char none rest = none
push_char (some c) none = none
push_char (some c) (some s) = some (c ∷ s)

abbrev pair_code : ℕ → ℕ → ℕ
pair_code u v = 0x10000 + (u - 0xd800) * 1024 + (v - 0xdc00)

-- A pair of surrogates is one character; a surrogate without its other half is an error.
unfoldable pub from_utf16 : List ℕ → Option String
unfolding of_code is_high is_low
from_utf16 List.[] = some []
from_utf16 (List.◌∷◌ u List.[]) = push_char (of_code u) (some [])
from_utf16 (List.◌∷◌ u (List.◌∷◌ v vs)) =
    let pair = push_char (of_code (pair_code u v)) (from_utf16 vs) in
    let single = push_char (of_code u) (from_utf16 (List.◌∷◌ v vs)) in
    if is_high u then (if is_low v then pair else none) else single

-- The units of a character.
abbrev units_of : ℕ → List ℕ → List ℕ
units_of n rest =
    if ltb n 0x10000
    then List.◌∷◌ n rest
    else List.◌∷◌ (0xd800 + (n - 0x10000) / 1024) (List.◌∷◌ (0xdc00 + (n - 0x10000) % 1024) rest)

unfoldable pub utf16 : String → List ℕ
utf16 [] = List.[]
utf16 (c ∷ s) = units_of (code c) (utf16 s)

from_utf16-single :
    (u : ℕ) (rest : List ℕ)
    → is_high u ≡ false
    → from_utf16 (List.◌∷◌ u rest) ≡ push_char (of_code u) (from_utf16 rest)
unfolding from_utf16
from_utf16-single u List.[] h = refl
from_utf16-single u (List.◌∷◌ v vs) h = rw (from_utf16, h)

from_utf16-pair :
    (u v : ℕ) (rest : List ℕ)
    → is_high u ≡ true
    → is_low v ≡ true
    → from_utf16 (List.◌∷◌ u (List.◌∷◌ v rest))
      ≡ push_char (of_code (pair_code u v)) (from_utf16 rest)
unfolding from_utf16
from_utf16-pair u v rest h l = rw (from_utf16, h, l)

from_utf16-units_of :
    (c : Char) (rest : List ℕ)
    → from_utf16 (units_of (code c) rest) ≡ push_char (some c) (from_utf16 rest)
unfolding is_high is_low
from_utf16-units_of c rest = elim (Bool-cases (ltb (code c) 0x10000)) [
  | inl small ↦ rw small (
      from_utf16-single (code c) rest (ground (arith, Bounds-code c))
      ∙ ap (λ o. push_char o (from_utf16 rest)) (of_code-code c))
  | inr large ↦
      let u : ℕ = 0xd800 + (code c - 0x10000) / 1024 in
      let v : ℕ = 0xdc00 + (code c - 0x10000) % 1024 in
      let same : pair_code u v ≡ code c = ground (arith, Bounds-code c) in
      rw large (
        from_utf16-pair u v rest (ground (arith, Bounds-code c)) (ground arith)
        ∙ ap (λ n. push_char (of_code n) (from_utf16 rest)) same
        ∙ ap (λ o. push_char o (from_utf16 rest)) (of_code-code c))
]

pub from_utf16-utf16 : (s : String) → from_utf16 (utf16 s) ≡ some s
unfolding utf16
from_utf16-utf16 [] = unfold from_utf16 in refl
from_utf16-utf16 (c ∷ s) =
    from_utf16-units_of c (utf16 s) ∙ ap (push_char (some c)) (from_utf16-utf16 s)
