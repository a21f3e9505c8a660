-- ===== src/Boot/Switched.antt =====
-- The calls on the system with which `exec_target_init` of src/main.rs switches to the new root and
-- prepares what it hands over.
use mathlib.Core.Path.{subst}
use ignited.Prelude.{ℕ, true, ◌≡◌, refl, sym, ap, ◌∙◌, Option, none, some, [], ◌∷◌}
use ignited.Prelude.Outcome.{Outcome, ok, err, panic}
use ignited.Prelude.Run.{Run}
use ignited.Logging.{KConsole}
use ignited.Logging.Host.{on_tree}
use ignited.Module.Aliases.{GlobCrate}
use ignited.Mount.Source.{UuidCrate}
use ignited.Mount.Options.{FlagsCrate}
use ignited.Mount.Moving.{Moved, move_mount_currdir, move_mount_iff, on_tree_ok}
use ignited.Time.{InitramfsTimer, Destination, write}
use ignited.Util.Ramfs.{delete_ramfs}
use ignited.Boot.Exit.{
  Exit, Action, ◌>>=◌, ◌>>◌, bail, pure, done, running, exit, handed_over, panicked, proceed,
}
use ignited.Boot.World.{World, files, State}
use ignited.Boot.Target.{deleted, delete_step, switch_root, memfd_left, timer_fd}

pub proceed_done :
    {S A B : Type 0} (next : A → Action S B) (r : Exit A × S) {b : B} {s' : S}
    → proceed next r ≡ (done b, s')
    → (a : A) × (s : S) × (r ≡ (done a, s)) × (next a s ≡ (done b, s'))
proceed_done next (done a, s) e = (a, s, refl, e)
proceed_done next (exit code message, s) e = cc
proceed_done next (panicked, s) e = cc
proceed_done next (running, s) e = cc
proceed_done next (handed_over p args, s) e = cc

bail_by :
    {S A : Type 0} (code : ℕ) (s : S) (r : Outcome A × S) {a : A} {s' : S}
    → bail code (λ x. r) s ≡ (done a, s')
    → r ≡ (ok a, s')
unfolding bail
bail_by code s (ok b, t) e = cc
bail_by code s (err m, t) e = cc
bail_by code s (panic, t) e = cc

bail_done :
    {S A : Type 0} (code : ℕ) (call : Run S A) (s : S) {a : A} {s' : S}
    → bail code call s ≡ (done a, s')
    → call s ≡ (ok a, s')
unfolding bail
bail_done code call s e = bail_by code s (call s) e

module _ {u : UuidCrate} {f : FlagsCrate} {g : GlobCrate} (w : World u f g) where
  -- The mounts were moved to the new root or taken off, the initramfs was emptied, the new root was
  -- moved over `/`, and the program has its root and its directory there.
  pub record Switched (h h' : State w) : Type 0 where
    pub moved : State w
    pub mounts_moved : Moved w.mover ("/run" ∷ "/dev" ∷ "/proc" ∷ "/sys" ∷ []) h moved
    pub emptied : w.Tree
    pub ramfs_deleted :
        delete_ramfs (files w) w.fuel (w.machine moved.tree) moved.tree ≡ some (ok tt, emptied)
    pub at_target : w.Tree
    pub in_target : w.chdir "/system_root" emptied ≡ (true, at_target)
    pub covered : w.Tree
    pub moved_over : w.mover.move "." "/" at_target ≡ (true, covered)
    pub jailed : w.Tree
    pub root_changed : w.chroot "." covered ≡ (true, jailed)
    pub in_root : w.chdir "." jailed ≡ (true, h'.tree)
    pub same_kcon : h'.kcon ≡ moved.kcon

  deleted_done :
      (h : State w) (o : Option (Outcome (Unit {0}) × w.Tree)) {h' : State w}
      → deleted w h o ≡ (done tt, h')
      → (t : w.Tree) × (o ≡ some (ok tt, t)) × (◌≡◌ {A = State w} (record h { tree = t }) h')
  unfolding bail
  deleted_done h none e = cc
  deleted_done h (some (ok x, t)) e = (t, refl, ap (λ p. p.1) e)
  deleted_done h (some (err m, t)) e = cc
  deleted_done h (some (panic, t)) e = cc

  pub switch_root-Switched : (h h' : State w) → switch_root w h ≡ (done tt, h') → Switched h h'
  unfolding switch_root ◌>>◌ move_mount_currdir
  switch_root-Switched h h' e =
      let (a1, s1, first, e1) = proceed_done _ _ e in
      let (a2, s2, second, e2) = proceed_done _ (delete_step w s1) e1 in
      let (a3, s3, third, e3) = proceed_done _ _ e2 in
      let (a4, s4, fourth, e4) = proceed_done _ _ e3 in
      let (a5, s5, fifth, e5) = proceed_done _ _ e4 in
      let (t2, deletion, same2) = deleted_done s1 _ second in
      let (t3, call3, same3) =
        on_tree_ok w.mover _ (w.chdir "/system_root") s2.kcon s2.tree (bail_done 52 _ s2 third) in
      let (t4, call4, same4) =
        on_tree_ok w.mover _ (w.mover.move "." "/") s3.kcon s3.tree (bail_done 53 _ s3 fourth) in
      let (t5, call5, same5) =
        on_tree_ok w.mover _ (w.chroot ".") s4.kcon s4.tree (bail_done 54 _ s4 fifth) in
      let (t6, call6, same6) =
        on_tree_ok w.mover _ (w.chdir ".") s5.kcon s5.tree (bail_done 55 _ s5 e5) in
      let tree_of : State w → w.Tree = λ x. x.tree in
      let kcon_of : State w → KConsole = λ x. x.kcon in
      record {
        moved = s1;
        mounts_moved =
            (move_mount_iff w.mover ("/run" ∷ "/dev" ∷ "/proc" ∷ "/sys" ∷ []) h s1).0
              (bail_done 50 _ h first);
        emptied = t2;
        ramfs_deleted = deletion;
        at_target = t3;
        in_target = rw (ap tree_of same2) call3;
        covered = t4;
        moved_over = rw (ap tree_of same3) call4;
        jailed = t5;
        root_changed = rw (ap tree_of same4) call5;
        in_root = rw (ap tree_of same5) (call6 ∙ ap (λ t. (true, t)) (ap tree_of same6));
        same_kcon = sym (
            ap kcon_of same2
            ∙ ap kcon_of same3
            ∙ ap kcon_of same4
            ∙ ap kcon_of same5
            ∙ ap kcon_of same6);
      }

  -- The file for the timestamps was made, and they were written to it.
  pub record Recorded (timer : InitramfsTimer) (h : State w) (fd : ℕ) : Type 0 where
    pub empty_file : Destination
    pub with_file : w.Tree
    pub created : w.create_memfd h.tree ≡ (ok (fd, empty_file), with_file)
    pub filled : Destination
    pub was_written : write timer empty_file ≡ (ok tt, filled)

  on_tree-ok :
      {A : Type 0} (h : State w) (r : Outcome A × w.Tree) {a : A} {s : State w}
      → on_tree (λ t. r) h ≡ (ok a, s)
      → r ≡ (ok a, s.tree)
  on_tree-ok h r e = ap (λ p. (p.0, p.1.tree)) e

  memfd_left-ok :
      (fd : ℕ) (r : Outcome (Unit {0}) × Destination) (t : w.Tree) {t' : w.Tree}
      → memfd_left w fd r t ≡ (ok tt, t')
      → (dest : Destination) × (r ≡ (ok tt, dest))
  memfd_left-ok fd (ok x, dest) t e = (dest, refl)
  memfd_left-ok fd (err m, dest) t e = cc
  memfd_left-ok fd (panic, dest) t e = cc

  done-injective :
      {A : Type 0} {a b : A} {s t : State w}
      → ◌≡◌ {A = Exit A × State w} (done a, s) (done b, t)
      → a ≡ b
  done-injective e = cc

  pub timer_fd-Recorded :
      (timer : InitramfsTimer) (h h' : State w) (fd : ℕ)
      → timer_fd w timer h ≡ (done fd, h')
      → Recorded timer h fd
  unfolding timer_fd ◌>>=◌ ◌>>◌ pure
  timer_fd-Recorded timer h h' fd e =
      let (memfd, s1, first, e1) =
        proceed_done {A = ℕ × Destination} _ (bail 100 (on_tree w.create_memfd) h) e in
      let call : Run (State w) (Unit {0}) = on_tree (memfd_left w memfd.0 (write timer memfd.1)) in
      let (a2, s2, second, e2) =
        proceed_done {A = Unit {0}} (λ x. pure memfd.0) (bail 100 call s1) e1 in
      let (dest, filled) =
        memfd_left-ok memfd.0 (write timer memfd.1) s1.tree
          (on_tree-ok s1 _ (bail_done 100 call s1 second)) in
      subst (Recorded timer h) (done-injective e2) (record {
        empty_file = memfd.1;
        with_file = s1.tree;
        created = on_tree-ok h _ (bail_done 100 (on_tree w.create_memfd) h first);
        filled = dest;
        was_written = filled;
      })
