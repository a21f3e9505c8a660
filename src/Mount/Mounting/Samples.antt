-- ===== src/Mount/Mounting/Samples.antt =====
-- A concrete file tree for the tests: the set of its directories as a function.
use ignited.Prelude.{
  String, Bool, true, false, ◌&&◌, ◌||◌, ◌≡◌, refl, List, [], ◌∷◌, ◌==◌, eq_refl, arith,
  if◌then◌else◌,
}
use ignited.Mount.Options.{MsFlag}
use ignited.Mount.Mounting.{Made, made, enoent, refused, Kernel}
use ignited.Mount.Mounting.Directories.{MkdirLaws, IsWritable}

abbrev pub same_names : List String → List String → Bool
same_names [] [] = true
same_names (x ∷ xs) (y ∷ ys) = x == y && same_names xs ys
same_names _ _ = false

abbrev same_kind : Bool → Bool → Bool
same_kind true b = b
same_kind false true = false
same_kind false false = true

-- The directories below the root and below the current one.
abbrev pub Dirs : Type 0
Dirs = Bool → List String → Bool

abbrev pub there : Bool → List String → Dirs → Bool
there a [] t = true
there a (x ∷ xs) t = t a (x ∷ xs)

abbrev parent_there : Bool → List String → Dirs → Bool
parent_there a [] t = true
parent_there a (x ∷ xs) t = there a xs t

abbrev add : Bool → List String → Dirs → Dirs
add a ns t b ms = (same_kind a b && same_names ns ms) || t b ms

abbrev make : Bool → List String → Dirs → Made × Dirs
make a ns t =
    if there a ns t
    then (refused, t)
    else if parent_there a ns t
    then (made, add a ns t)
    else (enoent, t)

-- It mounts whatever it is told to.
abbrev pub plain_tree : Kernel (MsFlag → Bool)
plain_tree = record {
  Tree = Dirs;
  mkdir = λ p t. make p.absolute p.names t;
  is_dir = λ p t. there p.absolute p.names t;
  mount_at = λ call t. (true, t);
}

same_names_refl : (xs : List String) → same_names xs xs ≡ true
same_names_refl [] = refl
same_names_refl (x ∷ xs) = rw (eq_refl x) (same_names_refl xs)

there-add : (a : Bool) (ns : List String) (t : Dirs) → there a ns (add a ns t) ≡ true
there-add a [] t = refl
there-add true (x ∷ xs) t = rw (eq_refl x, same_names_refl xs)
there-add false (x ∷ xs) t = rw (eq_refl x, same_names_refl xs)

make_leaves :
    (a : Bool) (ns : List String) (t : Dirs)
    → (make a ns t).0 ≡ made
    → there a ns (make a ns t).1 ≡ true
make_leaves a ns t h = ground (arith, there-add a ns t)

make_refused :
    (a : Bool) (ns : List String) (t : Dirs)
    → (make a ns t).0 ≡ refused
    → there a ns (make a ns t).1 ≡ true
make_refused a ns t h = ground arith

pub plain_tree-MkdirLaws : MkdirLaws plain_tree
plain_tree-MkdirLaws = record { made_dir = λ p t. make_leaves p.absolute p.names t }

make_missing :
    (a : Bool) (x y : String) (ys : List String) (t : Dirs)
    → (make a (x ∷ y ∷ ys) t).0 ≡ enoent
    → there a (y ∷ ys) t ≡ false
make_missing a x y ys t h = ground arith

make_first : (a : Bool) (x : String) (t : Dirs) → (make a (x ∷ []) t).0 ≡ enoent → ⊥
make_first a x t h = ground arith

pub plain_tree-IsWritable : IsWritable plain_tree
plain_tree-IsWritable = record {
  refused_dir = λ p t. make_refused p.absolute p.names t;
  parent_missing = λ a x y ys t. make_missing a x y ys t;
  root_there = λ t. refl;
  first_there = λ a x t. make_first a x t;
}
