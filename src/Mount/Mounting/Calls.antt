-- ===== src/Mount/Mounting/Calls.antt =====
-- `Mount::mount`: the call that it makes, and on what tree.
use ignited.Prelude.{
  String, Bool, true, false, ◌≡◌, ◌≢◌, refl, ◌∙◌, sym, ap, Option, List, [], ◌∷◌, arith,
}
use ignited.Prelude.Outcome.{Outcome, ok, err, panic}
use ignited.Mount.Options.{FlagsCrate, RootOpts}
use ignited.Mount.Mounting.{
  FilePath, Kernel, Mount, dev_pts, root, target, flags_of, options_of, mkdirall, call_of, mounted,
  with_options, then_mount, mount,
}
use ignited.Mount.Mounting.Directories.{MkdirLaws, mkdirall_leaves}

module _ (f : FlagsCrate) (k : Kernel f.Flags) where
  open k use {Tree, is_dir, mount_at}

  -- The kernel mounted the filesystem at its target, with its flags and options, on a tree that
  -- `mkdirall` left for that target; the tree is the one behind the call.
  pub record IsMounted (p : FilePath) (m : Mount f.Flags) (t t' : Tree) : Type 0 where
    pub flags : f.Flags
    pub options : Option String
    pub has_flags : flags_of f m ≡ ok flags
    pub has_options : options_of f m ≡ ok options
    pub made_target : (mkdirall k p t).0 ≡ ok tt
    pub answer : mount_at (call_of f k p m flags options) (mkdirall k p t).1 ≡ (true, t')

  mounted_ok :
      (p : FilePath) (r : Bool × Tree)
      → (mounted f k p r).0 ≡ ok tt
      → r ≡ (true, (mounted f k p r).1)
  mounted_ok p (true, t) h = refl
  mounted_ok p (false, t) h = absurd (ground arith)

  with_options_ok :
      (p : FilePath) (m : Mount f.Flags) (fl : Outcome f.Flags) (o : Outcome (Option String))
      (t : Tree)
      → (with_options f k p m fl o t).0 ≡ ok tt
      → (flags : f.Flags) × (options : Option String) × (fl ≡ ok flags)
        × (o ≡ ok options)
        × (mount_at (call_of f k p m flags options) t ≡ (true, (with_options f k p m fl o t).1))
  with_options_ok p m (ok flags) (ok options) t h = (flags, options, refl, refl, mounted_ok p _ h)
  with_options_ok p m (ok flags) (err e) t h = absurd (ground arith)
  with_options_ok p m (ok flags) panic t h = absurd (ground arith)
  with_options_ok p m (err e) o t h = absurd (ground arith)
  with_options_ok p m panic o t h = absurd (ground arith)

  then_mount_ok :
      (p : FilePath) (m : Mount f.Flags) (r : Outcome (Unit {0}) × Tree)
      → (then_mount f k p m r).0 ≡ ok tt
      → (r.0 ≡ ok tt)
        × ((with_options f k p m (flags_of f m) (options_of f m) r.1).0 ≡ ok tt)
        × (then_mount f k p m r ≡ with_options f k p m (flags_of f m) (options_of f m) r.1)
  then_mount_ok p m (ok u, t) h = (refl, h, refl)
  then_mount_ok p m (err e, t) h = absurd (ground arith)
  then_mount_ok p m (panic, t) h = absurd (ground arith)

  -- If `mount` succeeds, its target's directory was there when the kernel was called, and the
  -- kernel mounted the filesystem there with its flags and options.
  pub mount-IsMounted :
      MkdirLaws k
      → (m : Mount f.Flags) (absolute : Bool) (x : String) (xs : List String) (t : Tree)
      → target f m ≡ ok (record { absolute = absolute; names = x ∷ xs })
      → (mount f k m t).0 ≡ ok tt
      → IsMounted (record { absolute = absolute; names = x ∷ xs }) m t (mount f k m t).1
        × (is_dir
              (record { absolute = absolute; names = x ∷ xs })
              (mkdirall k (record { absolute = absolute; names = x ∷ xs }) t).1
            ≡ true)
  unfolding mount
  mount-IsMounted laws m absolute x xs t at h =
      let p : FilePath = record { absolute = absolute; names = x ∷ xs } in
      let (made, called, same) = then_mount_ok p m (mkdirall k p t) (rw (mount, at) at h) in
      let (flags, options, fl, o, answer) = with_options_ok p m _ _ _ called in
      (
        record {
          flags = flags;
          options = options;
          has_flags = fl;
          has_options = o;
          made_target = made;
          answer =
              rw (mount, at)
                (answer ∙ ap (λ (r : Outcome (Unit {0}) × Tree). (true, r.1)) (sym same));
        },
        mkdirall_leaves k laws absolute x xs t made,
      )

  pts_fails :
      (p : FilePath) (r : Outcome (Unit {0}) × Tree) → (then_mount f k p dev_pts r).0 ≢ ok tt
  unfolding flags_of
  pts_fails p (ok u, t) h = ground arith
  pts_fails p (err e, t) h = ground arith
  pts_fails p (panic, t) h = ground arith

  -- /dev/pts is never mounted, as its flags and options are not written yet, and the root panics
  -- before the kernel is called.
  pub mount_unfinished :
      (o : RootOpts f.Flags) (t : Tree)
      → ((mount f k dev_pts t).0 ≢ ok tt) × (mount f k (root o) t ≡ (panic, t))
  unfolding mount
  mount_unfinished o t =
      let pts : FilePath = record { absolute = true; names = "pts" ∷ "dev" ∷ [] } in
      (pts_fails pts (mkdirall k pts t), refl)
