-- ===== src/Prelude/Text/Split.antt =====
-- Splitting at a character, and joining.
use Prim.Native.Char.{Char, code}
use Prim.Native.String.{String, [], ◌∷◌}
use mathlib.Core.Path.{◌≡◌, refl, ap}
use mathlib.Core.Logic.{inl, inr}
use mathlib.Core.List
use mathlib.Core.List.{List}
use native.Mathlib.Omega.{arith}
use Prim.Native.Nat.{ℕ}
use ignited.Prelude.Tests.{Bool-cases}
use ignited.Prelude.Text.{◌⧺◌, is, push_front, split}

-- There is a first piece.
split-cons : (b : ℕ) (s : String) → (p : String) × (ps : List String) × (split b s ≡ List.◌∷◌ p ps)
unfolding split
split-cons b [] = ([], List.[], refl)
split-cons b (c ∷ s) =
    let (p, ps, e) = split-cons b s in
    elim (Bool-cases (is b c)) [
      | inl sep ↦ rw sep ([], split b s, refl)
      | inr other ↦ rw (other, e) (c ∷ p, ps, refl)
    ]

push_front-append :
    (c : Char) (b : ℕ) (s : String) (qs : List String)
    → push_front c (List.◌++◌ (split b s) qs) ≡ List.◌++◌ (push_front c (split b s)) qs
push_front-append c b s qs = let (p, ps, e) = split-cons b s in rw e

-- The pieces on both sides of a separator are the pieces of the whole.
pub split-append :
    (c : Char) (s t : String)
    → split (code c) (s ⧺ c ∷ t) ≡ List.◌++◌ (split (code c) s) (split (code c) t)
unfolding split
split-append c [] t = ground arith
split-append c (d ∷ s) t = elim (Bool-cases (is (code c) d)) [
  | inl sep ↦ rw sep (ap (λ r. List.◌∷◌ [] r) (split-append c s t))
  | inr other ↦
      rw other (rw (split-append c s t) (push_front-append d (code c) s (split (code c) t)))
]
