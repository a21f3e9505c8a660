-- ===== src/Mount/Mounting/Directories.antt =====
-- `mkdirall`: when it makes the directory, and that it does.
use ignited.Prelude.{String, Bool, true, false, ◌≡◌, refl, List, [], ◌∷◌, arith}
use ignited.Prelude.Outcome.{Outcome, ok, err, panic}
use ignited.Mount.Mounting.{
  FilePath, Made, made, enoent, refused, Kernel, at_root, retried, retry, first_try, no_parent,
  mkdirall_from, mkdirall,
}

module _ {Flags : Type 0} (k : Kernel Flags) where
  open k use {Tree, mkdir, is_dir}

  -- What `mkdir` is documented to do: a directory that it makes is there, and no directory goes.
  pub record MkdirLaws : Type 0 where
    pub made_dir : (p : FilePath) (t : Tree) → (mkdir p t).0 ≡ made → is_dir p (mkdir p t).1 ≡ true

  -- A tree in which nothing is in the way: an error other than ENOENT means that the directory is
  -- there, and ENOENT that the parent is not.
  pub record IsWritable : Type 0 where
    pub refused_dir :
        (p : FilePath) (t : Tree) → (mkdir p t).0 ≡ refused → is_dir p (mkdir p t).1 ≡ true
    pub parent_missing :
        (absolute : Bool) (x y : String) (ys : List String) (t : Tree)
        → (mkdir (record { absolute = absolute; names = x ∷ y ∷ ys }) t).0 ≡ enoent
        → is_dir (record { absolute = absolute; names = y ∷ ys }) t ≡ false
    pub root_there : (t : Tree) → (mkdir (at_root []) t).0 ≡ refused
    pub first_there :
        (absolute : Bool) (x : String) (t : Tree)
        → (mkdir (record { absolute = absolute; names = x ∷ [] }) t).0 ≡ enoent
        → ⊥

  abbrev Leaves : FilePath → Outcome (Unit {0}) × Tree → Type 0
  Leaves p r = r.0 ≡ ok tt → is_dir p r.1 ≡ true

  retried-Leaves :
      (p : FilePath) (r : Made × Tree)
      → (r.0 ≡ made → is_dir p r.1 ≡ true)
      → Leaves p (retried k p r)
  retried-Leaves p (made, t) there h = there refl
  retried-Leaves p (_, t) there h = ground arith

  retry-Leaves : MkdirLaws → (p : FilePath) (r : Outcome (Unit {0}) × Tree) → Leaves p (retry k p r)
  retry-Leaves laws p (ok u, t) = retried-Leaves p (mkdir p t) (laws.made_dir p t)
  retry-Leaves laws p (err e, t) = λ h. absurd (ground arith)
  retry-Leaves laws p (panic, t) = λ h. absurd (ground arith)

  first_try-Leaves :
      (p : FilePath) (parents : Tree → Outcome (Unit {0}) × Tree) (r : Made × Tree)
      → (r.0 ≡ made → is_dir p r.1 ≡ true)
      → ((t : Tree) → Leaves p (parents t))
      → Leaves p (first_try k p parents r)
  first_try-Leaves p parents (made, t) there later h = there refl
  first_try-Leaves p parents (enoent, t) there later h = later t h
  first_try-Leaves p parents (refused, t) there later h = ground arith

  -- If `mkdirall` succeeds on a path that is not empty, its directory is there.
  pub mkdirall_leaves :
      MkdirLaws
      → (absolute : Bool) (x : String) (xs : List String) (t : Tree)
      → (mkdirall k (record { absolute = absolute; names = x ∷ xs }) t).0 ≡ ok tt
      → is_dir
          (record { absolute = absolute; names = x ∷ xs })
          (mkdirall k (record { absolute = absolute; names = x ∷ xs }) t).1
        ≡ true
  unfolding mkdirall mkdirall_from
  mkdirall_leaves laws absolute x xs t =
      let p : FilePath = record { absolute = absolute; names = x ∷ xs } in
      first_try-Leaves p (λ t'. retry k p (mkdirall_from k absolute xs t')) (mkdir p t)
        (laws.made_dir p t) (λ t'. retry-Leaves laws p (mkdirall_from k absolute xs t'))

  retried_ok :
      (p : FilePath) (r : Made × Tree)
      → (r.0 ≡ refused → is_dir p r.1 ≡ true)
      → ((r.0 ≡ enoent) → ⊥)
      → (retried k p r).0 ≡ ok tt
  retried_ok p (made, t) there found = refl
  retried_ok p (enoent, t) there found = absurd (found refl)
  retried_ok p (refused, t) there found = rw (there refl)

  retry_ok :
      (p : FilePath) (r : Outcome (Unit {0}) × Tree)
      → IsWritable
      → r.0 ≡ ok tt
      → ((mkdir p r.1).0 ≡ enoent → ⊥)
      → (retry k p r).0 ≡ ok tt
  retry_ok p (ok u, t) w h found = retried_ok p (mkdir p t) (w.refused_dir p t) found
  retry_ok p (err e, t) w h found = absurd (ground arith)
  retry_ok p (panic, t) w h found = absurd (ground arith)

  refused_ok :
      (p : FilePath) (parents : Tree → Outcome (Unit {0}) × Tree) (r : Made × Tree)
      → r.0 ≡ refused
      → is_dir p r.1 ≡ true
      → (first_try k p parents r).0 ≡ ok tt
  refused_ok p parents (made, t) h there = refl
  refused_ok p parents (enoent, t) h there = absurd (ground arith)
  refused_ok p parents (refused, t) h there = rw there

  first_try_ok :
      (p : FilePath) (parents : Tree → Outcome (Unit {0}) × Tree) (r : Made × Tree)
      → (r.0 ≡ refused → is_dir p r.1 ≡ true)
      → ((t : Tree) → (parents t).0 ≡ ok tt)
      → (first_try k p parents r).0 ≡ ok tt
  first_try_ok p parents (made, t) there later = refl
  first_try_ok p parents (enoent, t) there later = later t
  first_try_ok p parents (refused, t) there later = rw (there refl)

  mkdirall_from_ok :
      MkdirLaws
      → IsWritable
      → (absolute : Bool) (names : List String) (t : Tree)
      → (mkdirall_from k absolute names t).0 ≡ ok tt
  unfolding mkdirall_from mkdirall
  mkdirall_from_ok laws w false [] t = refl
  mkdirall_from_ok laws w true [] t =
      refused_ok (at_root []) (no_parent k (at_root [])) (mkdir (at_root []) t) (w.root_there t)
        (w.refused_dir (at_root []) t (w.root_there t))
  mkdirall_from_ok laws w absolute (x ∷ []) t =
      let p : FilePath = record { absolute = absolute; names = x ∷ [] } in
      first_try_ok p (λ t'. retry k p (mkdirall_from k absolute [] t')) (mkdir p t)
        (w.refused_dir p t)
        (λ t'.
          retry_ok p (mkdirall_from k absolute [] t') w (mkdirall_from_ok laws w absolute [] t')
            (w.first_there absolute x _))
  mkdirall_from_ok laws w absolute (x ∷ y ∷ ys) t =
      let p : FilePath = record { absolute = absolute; names = x ∷ y ∷ ys } in
      first_try_ok p (λ t'. retry k p (mkdirall_from k absolute (y ∷ ys) t')) (mkdir p t)
        (w.refused_dir p t)
        (λ t'.
          let parent = mkdirall_from_ok laws w absolute (y ∷ ys) t' in
          retry_ok p (mkdirall_from k absolute (y ∷ ys) t') w parent (λ missing. ground (
            arith,
            w.parent_missing absolute x y ys _ missing,
            mkdirall_leaves laws absolute y ys t' parent,
          )))

  -- In a tree in which nothing is in the way, `mkdirall` succeeds on every path, however many of
  -- its directories are missing.
  pub mkdirall_succeeds :
      MkdirLaws → IsWritable → (p : FilePath) (t : Tree) → (mkdirall k p t).0 ≡ ok tt
  unfolding mkdirall
  mkdirall_succeeds laws w p t = mkdirall_from_ok laws w p.absolute p.names t
