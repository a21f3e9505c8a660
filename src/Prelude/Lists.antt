-- ===== src/Prelude/Lists.antt =====
-- Options and lists: chaining, the first hit of a partial function, and predicates on all members.
use Prim.Native.Nat.{ℕ, suc, ◌+◌}
use mathlib.Core.Path.{◌≡◌, refl, sym, ◌∙◌}
use mathlib.Core.Logic.{◌⊎◌, inl, inr}
use mathlib.Core.Option.{Option, none, some}
use mathlib.Core.List.{List, [], ◌∷◌, ◌++◌, foldl, append-nil, append_assoc}
use native.Mathlib.Omega.{arith}

-- `Option::or_else`: the first option unless it is empty.
abbrev pub or_else {ℓ} : {A : Type ℓ} → Option A → Option A → Option A
or_else none o = o
or_else (some a) o = some a

-- `Option::unwrap_or`
abbrev pub unwrap_or {ℓ} : {A : Type ℓ} → Option A → A → A
unwrap_or none d = d
unwrap_or (some a) d = a

pub or_else-none {ℓ} : {A : Type ℓ} (o : Option A) → or_else o none ≡ o
or_else-none none = refl
or_else-none (some a) = refl

pub or_else_assoc {ℓ} :
    {A : Type ℓ} (a b c : Option A) → or_else (or_else a b) c ≡ or_else a (or_else b c)
or_else_assoc none b c = refl
or_else_assoc (some a) b c = refl

pub unwrap_or-or_else {ℓ} :
    {A : Type ℓ} (a b : Option A) (d : A) → unwrap_or a (unwrap_or b d) ≡ unwrap_or (or_else a b) d
unwrap_or-or_else none b d = refl
unwrap_or-or_else (some x) b d = refl

module _ {ℓ κ} {A : Type ℓ} {B : Type κ} where
  -- The first result that `f` gives on the list, as Rust's `Iterator::find_map`.
  abbrev pub find_map : (A → Option B) → List A → Option B
  find_map f [] = none
  find_map f (x ∷ xs) = or_else (f x) (find_map f xs)

  pub find_map-append :
      (f : A → Option B) (xs ys : List A)
      → find_map f (xs ++ ys) ≡ or_else (find_map f xs) (find_map f ys)
  find_map-append f [] ys = refl
  find_map-append f (x ∷ xs) ys =
      rw (find_map-append f xs ys, or_else_assoc (f x) (find_map f xs) (find_map f ys))

pub List-cases {ℓ} :
    {A : Type ℓ} (xs : List A) → (xs ≡ []) ⊎ ((y : A) × (ys : List A) × (xs ≡ y ∷ ys))
List-cases [] = inl refl
List-cases (x ∷ xs) = inr (x, xs, refl)

module _ {ℓ} {A : Type ℓ} where
  abbrev pub length : List A → ℕ
  length [] = 0
  length (x ∷ xs) = suc (length xs)

  pub length-append : (xs ys : List A) → length (xs ++ ys) ≡ length xs + length ys
  length-append [] ys = omega arith
  length-append (x ∷ xs) ys = omega (arith, length-append xs ys)

module _ {ℓ κ} {A : Type ℓ} (P : A → Type κ) where
  abbrev pub All : List A → Type κ
  All [] = Unit
  All (x ∷ xs) = P x × All xs

  pub All-append : (xs ys : List A) → All xs → All ys → All (xs ++ ys)
  All-append [] ys _ hy = hy
  All-append (x ∷ xs) ys (px, hx) hy = (px, All-append xs ys hx hy)

module _ {ℓ κ} {A : Type ℓ} {B : Type κ} where
  -- `Iterator::flat_map`
  abbrev pub concat_map : (A → List B) → List A → List B
  concat_map g [] = []
  concat_map g (x ∷ xs) = g x ++ concat_map g xs

  -- A fold that appends.
  pub foldl-append_each :
      (g : A → List B) (l : List B) (xs : List A)
      → foldl (λ (l : List B) x. l ++ g x) l xs ≡ l ++ concat_map g xs
  foldl-append_each g l [] = sym (append-nil l)
  foldl-append_each g l (x ∷ xs) =
      foldl-append_each g (l ++ g x) xs ∙ append_assoc l (g x) (concat_map g xs)

  -- The last result that `f` gives on the list.
  abbrev pub find_last_map : (A → Option B) → List A → Option B
  find_last_map f [] = none
  find_last_map f (x ∷ xs) = or_else (find_last_map f xs) (f x)

  -- A fold that overwrites.
  pub foldl-overwrite :
      (g : A → Option B) (b : B) (xs : List A)
      → foldl (λ (b : B) x. unwrap_or (g x) b) b xs ≡ unwrap_or (find_last_map g xs) b
  foldl-overwrite g b [] = refl
  foldl-overwrite g b (x ∷ xs) =
      foldl-overwrite g (unwrap_or (g x) b) xs ∙ unwrap_or-or_else (find_last_map g xs) (g x) b

  -- A fold that keeps the first.
  pub foldl-or_else :
      (g : A → Option B) (o : Option B) (xs : List A)
      → foldl (λ (o : Option B) x. or_else o (g x)) o xs ≡ or_else o (find_map g xs)
  foldl-or_else g o [] = sym (or_else-none o)
  foldl-or_else g o (x ∷ xs) =
      foldl-or_else g (or_else o (g x)) xs ∙ or_else_assoc o (g x) (find_map g xs)

pub All-map {ℓ κ μ} :
    {A : Type ℓ} {P : A → Type κ} {Q : A → Type μ} (xs : List A)
    → ((x : A) → P x → Q x)
    → All P xs
    → All Q xs
All-map [] f h = tt
All-map (x ∷ xs) f (p, h) = (f x p, All-map xs f h)
