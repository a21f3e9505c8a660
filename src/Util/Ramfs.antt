-- ===== src/Util/Ramfs.antt =====
-- `delete_ramfs` of src/util.rs. The files of the system are a parameter with the calls that the
-- function makes; an entry that `read_dir` could not read is `none`.
use Prim.Native.Nat.{bit_and}
use ignited.Prelude.{
  ℕ, zero, suc, String, Bool, true, false, not, ◌||◌, ◌≡◌, refl, Option, none, some, List, [], ◌∷◌,
  ◌==◌, eqb, All, Bool-cases, inl, inr, if◌then◌else◌,
}
use ignited.Prelude.Text.{◌⧺◌}
use ignited.Prelude.Outcome.{Outcome, ok, err, panic, Outcome-cases}
use ignited.Mount.Mounting.{FilePath, at_root, display}
use ignited.Util.Sanity.{Machine, full_sanity_check}

pub record FileStat : Type 0 where
  pub st_dev : ℕ
  pub st_mode : ℕ

pub record Files : Type 1 where
  pub Tree : Type 0
  pub lstat : FilePath → Tree → Outcome FileStat
  pub read_dir : FilePath → Tree → Outcome (List (Option String))
  pub remove_dir : FilePath → Tree → Outcome (Unit {0}) × Tree
  pub remove_file : FilePath → Tree → Outcome (Unit {0}) × Tree

-- `mode & S_IFMT == S_IFDIR`
unfoldable pub is_dir : ℕ → Bool
is_dir mode = eqb (bit_and mode 0xf000) 0x4000

-- `path != Path::new("/")`
abbrev pub below_root : FilePath → Bool
below_root p = elim p.names [ [] ↦ not p.absolute | x ∷ xs ↦ true ]

-- `entry.path()`
abbrev pub child : FilePath → String → FilePath
child p name = record p { names = name ∷ p.names }

abbrev pub is_dot : String → Bool
is_dot name = name == "." || name == ".."

module _ (k : Files) where
  open k use {Tree, lstat, read_dir, remove_dir, remove_file}

  -- `none` means that the fuel ran out.
  abbrev pub Run : Type 0
  Run = Option (Outcome (Unit {0}) × Tree)

  abbrev pub and_run : Run → (Tree → Run) → Run
  and_run none later = none
  and_run (some (ok u, t)) later = later t
  and_run (some (err e, t)) later = some (err e, t)
  and_run (some (panic, t)) later = some (panic, t)

  abbrev pub removed : String → Outcome (Unit {0}) × Tree → Outcome (Unit {0}) × Tree
  removed message (ok u, t) = (ok tt, t)
  removed message (err io, t) = (err (message ⧺ ": " ⧺ io), t)
  removed message (panic, t) = (panic, t)

  -- The loop over the entries, which goes into those that are named "." or "..".
  unfoldable pub delete_each :
      (FilePath → Tree → Run) → FilePath → List (Option String) → Tree → Run
  delete_each delete p [] t = some (ok tt, t)
  delete_each delete p (none ∷ es) t = delete_each delete p es t
  delete_each delete p (some name ∷ es) t =
      let later = λ (t' : Tree). delete_each delete p es t' in
      if is_dot name then and_run (delete (child p name) t) later else later t

  abbrev pub delete_dir : (FilePath → Tree → Run) → FilePath → Tree → Run
  delete_dir delete p t = elim (read_dir p t) [
    | ok es ↦ and_run (delete_each delete p es t) (λ t'.
        if below_root p
        then some (removed ("unable to remove directory " ⧺ display p) (remove_dir p t'))
        else some (ok tt, t'))
    | err io ↦ some (err ("unable to read " ⧺ display p ⧺ ": " ⧺ io), t)
    | panic ↦ some (panic, t)
  ]

  abbrev pub delete_file : FilePath → Tree → Run
  delete_file p t =
      if below_root p
      then some (removed ("unable to remove file " ⧺ display p) (remove_file p t))
      else some (ok tt, t)

  abbrev pub delete_stat : (FilePath → Tree → Run) → FilePath → ℕ → Tree → FileStat → Run
  delete_stat delete p root_dev t st =
      if eqb st.st_dev root_dev
      then (if is_dir st.st_mode then delete_dir delete p t else delete_file p t)
      else some (ok tt, t)

  -- The fuel bounds the depth of the recursion.
  unfoldable pub delete_recursive : ℕ → ℕ → FilePath → Tree → Run
  unfolding delete_each display is_dir
  delete_recursive zero root_dev p t = none
  delete_recursive (suc n) root_dev p t = elim (lstat p t) [
    | ok st ↦ delete_stat (delete_recursive n root_dev) p root_dev t st
    | err io ↦ some (err ("unable to stat " ⧺ display p), t)
    | panic ↦ some (panic, t)
  ]

  unfoldable pub delete_ramfs : ℕ → Machine → Tree → Run
  unfolding delete_recursive full_sanity_check
  delete_ramfs n m t = elim (full_sanity_check m) [
    | ok root_dev ↦ delete_recursive n root_dev (at_root []) t
    | err e ↦ some (err e, t)
    | panic ↦ some (panic, t)
  ]

  abbrev pub IsPlain : Option String → Type 0
  IsPlain none = Unit
  IsPlain (some name) = is_dot name ≡ false

  -- `read_dir` is documented to skip the entries of the directory and of its parent.
  pub record SkipsDots : Type 0 where
    pub plain :
        (p : FilePath) (t : Tree) (es : List (Option String))
        → read_dir p t ≡ ok es
        → All IsPlain es

  delete_each-plain :
      (delete : FilePath → Tree → Run) (p : FilePath) (es : List (Option String)) (t : Tree)
      → All IsPlain es
      → delete_each delete p es t ≡ some (ok tt, t)
  unfolding delete_each
  delete_each-plain delete p [] t h = refl
  delete_each-plain delete p (none ∷ es) t (h, hs) = delete_each-plain delete p es t hs
  delete_each-plain delete p (some name ∷ es) t (h, hs) = rw h (delete_each-plain delete p es t hs)

  abbrev Untouched : Tree → Run → Type 0
  Untouched t r = (o : Outcome (Unit {0})) × (r ≡ some (o, t))

  read_root-Untouched :
      (delete : FilePath → Tree → Run) (t : Tree) (r : Outcome (List (Option String)))
      → read_dir (at_root []) t ≡ r
      → SkipsDots
      → Untouched t (delete_dir delete (at_root []) t)
  read_root-Untouched delete t (ok es) e skips = (
    ok tt,
    rw (delete_dir, e)
        (rw (delete_each-plain delete (at_root []) es t (skips.plain (at_root []) t es e))),
  )
  read_root-Untouched delete t (err io) e skips =
      (err ("unable to read " ⧺ display (at_root []) ⧺ ": " ⧺ io), rw (delete_dir, e))
  read_root-Untouched delete t panic e skips = (panic, rw (delete_dir, e))

  stat_root-Untouched :
      SkipsDots
      → (delete : FilePath → Tree → Run) (root_dev : ℕ) (t : Tree) (st : FileStat)
      → Untouched t (delete_stat delete (at_root []) root_dev t st)
  stat_root-Untouched skips delete root_dev t st = elim (Bool-cases (eqb st.st_dev root_dev)) [
    | inr other ↦ (ok tt, rw other)
    | inl same ↦ elim (Bool-cases (is_dir st.st_mode)) [
      | inr file ↦ (ok tt, rw (same, file))
      | inl dir ↦ rw (same, dir) (read_root-Untouched delete t (read_dir (at_root []) t) refl skips)
    ]
  ]

  delete_root-Untouched :
      SkipsDots
      → (n root_dev : ℕ) (t : Tree) → Untouched t (delete_recursive (suc n) root_dev (at_root []) t)
  unfolding delete_recursive
  delete_root-Untouched skips n root_dev t = elim (Outcome-cases (lstat (at_root []) t)) [
    | inl (st, e) ↦
        rw (delete_recursive, e)
          (stat_root-Untouched skips (delete_recursive n root_dev) root_dev t st)
    | inr (inl (io, failed)) ↦
        (err ("unable to stat " ⧺ display (at_root [])), rw (delete_recursive, failed))
    | inr (inr failed) ↦ (panic, rw (delete_recursive, failed))
  ]

  -- Whatever the files are and however little fuel there is, the deletion of the initramfs ends and
  -- removes nothing: the loop goes into no entry, and the root itself is kept.
  pub delete_ramfs-Untouched :
      SkipsDots
      → (n : ℕ) (m : Machine) (t : Tree)
      → (o : Outcome (Unit {0})) × (delete_ramfs (suc n) m t ≡ some (o, t))
  unfolding delete_ramfs
  delete_ramfs-Untouched skips n m t = elim (Outcome-cases (full_sanity_check m)) [
    | inl (root_dev, e) ↦ rw (delete_ramfs, e) (delete_root-Untouched skips n root_dev t)
    | inr (inl (e, failed)) ↦ (err e, rw (delete_ramfs, failed))
    | inr (inr failed) ↦ (panic, rw (delete_ramfs, failed))
  ]
