-- ===== src/Mount/Moving.antt =====
-- `Mount::move_mount` and `Mount::move_mount_currdir` of src/mount.rs, with the calls they make as a
-- parameter.
use mathlib.Core.Path.{subst}
use ignited.Prelude.{
  String, Bool, true, false, ◌≡◌, ◌↔◌, refl, sym, ap, List, [], ◌∷◌, Bool-cases, inl, inr,
  if◌then◌else◌,
}
use ignited.Prelude.Text.{◌⧺◌}
use ignited.Prelude.Outcome.{ok}
use ignited.Prelude.Run.{Run, ◌>>◌, go_on_ok, printable}
use ignited.Logging.{KConsole, warn, print_message_ln}
use ignited.Logging.Host.{Host, on_tree, kprint}
use ignited.Util.Sanity.{target_root}

-- `Path::exists`, `umount2` with MNT_DETACH, and `mount` with MS_MOVE.
pub record Mover (Tree : Type 0) : Type 0 where
  pub exists : String → Tree → Bool
  pub detach : String → Tree → Bool × Tree
  pub move : String → String → Tree → Bool × Tree

module _ {Tree : Type 0} (k : Mover Tree) where
  abbrev pub missing_in_root : String → String
  missing_in_root name = name ⧺ " doesn't exist at the newly mounted filesystem"

  abbrev pub detach_mount : String → Run (Host Tree) (Unit {0})
  detach_mount name = on_tree (printable ("unable to unmount " ⧺ name) (k.detach name))

  abbrev pub remount : String → Run (Host Tree) (Unit {0})
  remount name = on_tree (
      printable ("unable to remount " ⧺ name ⧺ " in " ⧺ target_root)
        (k.move name (target_root ⧺ name)))

  -- One round of the loop.
  unfoldable pub move_one : String → Run (Host Tree) (Unit {0})
  move_one name h =
      if k.exists (target_root ⧺ name) h.tree
      then remount name h
      else (kprint warn (missing_in_root name) >> detach_mount name) h

  unfoldable pub move_mount : List String → Run (Host Tree) (Unit {0})
  unfolding move_one
  move_mount [] h = (ok tt, h)
  move_mount (name ∷ names) h = (move_one name >> move_mount names) h

  unfoldable pub move_mount_currdir : Run (Host Tree) (Unit {0})
  move_mount_currdir =
      on_tree (printable ("unable to remount " ⧺ target_root ⧺ " in /") (k.move "." "/"))

  -- What became of each mount, in order: it was moved below the new root, or taken off with a warning
  -- as its directory was missing there.
  pub data Moved : List String → Host Tree → Host Tree → Type 0 where
    none_left : (h : Host Tree) → Moved [] h h
    moved :
        (name : String) (names : List String) (kcon : KConsole) (t t' : Tree) (h : Host Tree)
        → k.exists (target_root ⧺ name) t ≡ true
        → k.move name (target_root ⧺ name) t ≡ (true, t')
        → Moved names (record { kcon = kcon; tree = t' }) h
        → Moved (name ∷ names) (record { kcon = kcon; tree = t }) h
    detached :
        (name : String) (names : List String) (kcon : KConsole) (t t' : Tree) (h : Host Tree)
        → k.exists (target_root ⧺ name) t ≡ false
        → k.detach name t ≡ (true, t')
        → Moved names
            (record { kcon = print_message_ln kcon warn (missing_in_root name); tree = t' })
            h
        → Moved (name ∷ names) (record { kcon = kcon; tree = t }) h

  on_tree_by :
      (message : String) (kcon : KConsole) (r : Bool × Tree) {h : Host Tree}
      → on_tree {A = Unit {0}}
          (λ t. printable message (λ t'. r) t)
          (record { kcon = kcon; tree = r.1 })
        ≡ (ok tt, h)
      → (r.0 ≡ true) × (◌≡◌ {A = Host Tree} (record { kcon = kcon; tree = r.1 }) h)
  on_tree_by message kcon (true, t) e = (refl, ap (λ p. p.1) e)
  on_tree_by message kcon (false, t) e = cc

  pub on_tree_ok :
      (message : String) (call : Tree → Bool × Tree) (kcon : KConsole) (t : Tree) {h : Host Tree}
      → on_tree (printable message call) (record { kcon = kcon; tree = t }) ≡ (ok tt, h)
      → (t' : Tree) × (call t ≡ (true, t'))
        × (◌≡◌ {A = Host Tree} (record { kcon = kcon; tree = t' }) h)
  on_tree_ok message call kcon t e =
      let (worked, same) = on_tree_by message kcon (call t) e in
      ((call t).1, ap (λ b. (b, (call t).1)) worked, same)

  sound :
      (names : List String) (h h' : Host Tree) → move_mount names h ≡ (ok tt, h') → Moved names h h'
  unfolding move_mount
  sound [] h h' e = subst (Moved [] h) (ap (λ p. p.1) e) (none_left h)
  sound (name ∷ names) h h' e =
      let (u, h1, first, rest) = go_on_ok (λ u. move_mount names) (move_one name h) e in
      elim (Bool-cases (k.exists (target_root ⧺ name) h.tree)) [
        | inl there ↦
            let (t', call, same) =
              on_tree_ok _ (k.move name (target_root ⧺ name)) h.kcon h.tree
                (rw (move_one, there) at first) in
            moved name names h.kcon h.tree t' h' there call
              (subst (λ x. Moved names x h') (sym same) (sound names h1 h' rest))
        | inr missing ↦
            let (t', call, same) =
              on_tree_ok _ (k.detach name) (print_message_ln h.kcon warn (missing_in_root name))
                h.tree (rw (move_one, missing) at first) in
            detached name names h.kcon h.tree t' h' missing call
              (subst (λ x. Moved names x h') (sym same) (sound names h1 h' rest))
      ]

  complete :
      (names : List String) (h h' : Host Tree) → Moved names h h' → move_mount names h ≡ (ok tt, h')
  unfolding move_mount move_one
  complete [] h h' (none_left _) = refl
  complete (_ ∷ _) h h' (moved name names kcon t t' _ there call rest) =
      rw (there, call) (complete names _ h' rest)
  complete (_ ∷ _) h h' (detached name names kcon t t' _ missing call rest) =
      rw (missing, call) (complete names _ h' rest)

  -- The loop succeeds exactly if each mount could be moved or taken off, and leaves what that leaves.
  pub move_mount_iff :
      (names : List String) (h h' : Host Tree)
      → (move_mount names h ≡ (ok tt, h')) ↔ Moved names h h'
  move_mount_iff names h h' = (sound names h h', complete names h h')
