-- ===== src/Prelude/Text/Laws.antt =====
-- Laws of the text operations.
use Prim.Native.Nat.{ℕ}
use Prim.Native.Char.{Char, code}
use Prim.Native.String
use Prim.Native.String.{String, [], ◌∷◌}
use mathlib.Core.Path.{◌≡◌, refl, ap}
use mathlib.Core.Bool.{false}
use mathlib.Core.Option.{none, some}
use native.Mathlib.Omega.{arith}
use text.Mathlib.TextLemmas.{nil-append, cons-append}
use text.Mathlib.TextEquality.{Char-path}
use ignited.Prelude.Text.{◌⧺◌, is, split_once, strip_prefix, has, split_once_at}

-- The append of this library is the native one.
pub ⧺-eq-append : (s t : String) → (s ⧺ t) ≡ String.◌++◌ s t
⧺-eq-append [] t = rw nil-append
⧺-eq-append (c ∷ s) t = rw (cons-append, ⧺-eq-append s t)

pub ⧺-nil : (s : String) → (s ⧺ "") ≡ s
⧺-nil [] = refl
⧺-nil (c ∷ s) = ap (λ t. c ∷ t) (⧺-nil s)

pub ⧺_assoc : (s t u : String) → ((s ⧺ t) ⧺ u) ≡ (s ⧺ (t ⧺ u))
⧺_assoc [] t u = refl
⧺_assoc (c ∷ s) t u = ap (λ r. c ∷ r) (⧺_assoc s t u)

-- Stripping a prefix that was put in front gives the text back.
pub strip_prefix-append : (p s : String) → strip_prefix p (p ⧺ s) ≡ some s
unfolding strip_prefix
strip_prefix-append [] s = refl
strip_prefix-append (c ∷ p) s = ground (arith, strip_prefix-append p s)

-- What a stripped prefix leaves is the rest of the text.
pub append_of_strip_prefix : (p s : String) {r : String} → strip_prefix p s ≡ some r → (p ⧺ r) ≡ s
unfolding strip_prefix
append_of_strip_prefix [] s h = ground arith
append_of_strip_prefix (c ∷ p) [] h = cc
append_of_strip_prefix (c ∷ p) (d ∷ s) {r} h =
    ground (arith, append_of_strip_prefix p s {r = r}, Char-path d c)

-- A text without the separator is not split.
pub split_once_of_lacks : (b : ℕ) (s : String) → has b s ≡ false → split_once b s ≡ none
unfolding split_once has
split_once_of_lacks b [] h = refl
split_once_of_lacks b (c ∷ s) h = ground (arith, split_once_of_lacks b s)

-- The first separator is where the text is split.
pub split_once-append :
    (c : Char) (k v : String)
    → has (code c) k ≡ false
    → split_once (code c) (k ⧺ c ∷ v) ≡ some (k, v)
unfolding split_once has
split_once-append c [] v h = ground arith
split_once-append c (d ∷ k) v h = ground (arith, split_once-append c k v)

has_cons_false :
    (b : ℕ) (c : Char) (s : String) → has b (c ∷ s) ≡ false → (is b c ≡ false) × (has b s ≡ false)
unfolding has
has_cons_false b c s h = ground arith

strip_prefix_ne :
    (d c : Char) (sep s : String) → is (code d) c ≡ false → strip_prefix (d ∷ sep) (c ∷ s) ≡ none
unfolding strip_prefix
strip_prefix_ne d c sep s h = rw h

-- Splitting at a text that begins with a character which the part before it lacks.
pub split_once_at-append :
    (d : Char) (sep k v : String)
    → has (code d) k ≡ false
    → split_once_at (d ∷ sep) (k ⧺ (d ∷ sep) ⧺ v) ≡ some (k, v)
unfolding split_once_at has
split_once_at-append d sep [] v h = rw (split_once_at, strip_prefix-append (d ∷ sep) v)
split_once_at-append d sep (c ∷ k) v h =
    let (other, later) = has_cons_false (code d) c k h in
    rw (split_once_at, strip_prefix_ne d c sep (k ⧺ (d ∷ sep) ⧺ v) other)
      (rw (split_once_at-append d sep k v later))

pub split_once_at_of_lacks :
    (d : Char) (sep s : String) → has (code d) s ≡ false → split_once_at (d ∷ sep) s ≡ none
unfolding split_once_at strip_prefix
split_once_at_of_lacks d sep [] h = refl
split_once_at_of_lacks d sep (c ∷ s) h =
    let (other, later) = has_cons_false (code d) c s h in
    rw (split_once_at, strip_prefix_ne d c sep s other) (rw (split_once_at_of_lacks d sep s later))
