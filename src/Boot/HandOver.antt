-- ===== src/Boot/HandOver.antt =====
-- With what the target's init is executed.
use mathlib.Core.Path.{subst}
use ignited.Prelude.{
  ℕ, String, true, false, ◌≡◌, ◌≢◌, refl, sym, ◌⊎◌, inl, inr, arith, Option, none, some, List, [],
  ◌∷◌, Bool-cases,
}
use ignited.Prelude.Text.Number.{show}
use ignited.Prelude.Outcome.{Outcome}
use ignited.Config.Cmdline.{CmdlineArgs}
use ignited.Module.Aliases.{GlobCrate}
use ignited.Mount.Source.{UuidCrate}
use ignited.Mount.Options.{FlagsCrate}
use ignited.Time.{InitramfsTimer}
use ignited.Util.Ramfs.{delete_ramfs}
use ignited.Boot.Ends.{Between}
use ignited.Util.Systemd.{is_systemd_compatible}
use ignited.Boot.Exit.{
  Stays, Within, bail-Stays, pure-Stays, >>=-Stays, >>-Stays, Exit, Action, ◌>>=◌, ◌>>◌, pure, done,
  running, exit, handed_over, panicked, proceed,
}
use ignited.Boot.Switched.{
  proceed_done, Switched, switch_root-Switched, Recorded, timer_fd-Recorded,
}
use ignited.Boot.World.{World, files, State}
use ignited.Boot.Target.{
  deleted, delete_step, path_of, switch_root, timer_fd, init_args, systemd_args, exec_step,
  exec_target_init,
}

-- A first part that does not hand over hands over no more than what comes behind it does.
handed_over_later :
    {S A : Type 0} (P : ℕ → Type 0) (next : A → Action S (Unit {0})) (r : Exit A × S)
    {path : String} {argv : List String}
    → Within P r.0
    → (proceed next r).0 ≡ handed_over path argv
    → (a : A) × (s : S) × (r ≡ (done a, s)) × ((next a s).0 ≡ handed_over path argv)
handed_over_later P next (done a, s) w e = (a, s, refl, e)
handed_over_later P next (exit code message, s) w e = cc
handed_over_later P next (panicked, s) w e = cc
handed_over_later P next (running, s) w e = cc
handed_over_later P next (handed_over p args, s) w e = absurd w

done-injective :
    {S A : Type 0} {a b : A} {s t : S} → ◌≡◌ {A = Exit A × S} (done a, s) (done b, t) → a ≡ b
done-injective e = cc

handed_over-injective :
    {A : Type 0} {p q : String} {x y : List String}
    → ◌≡◌ {A = Exit A} (handed_over p x) (handed_over q y)
    → (q ≡ p) × (y ≡ x)
handed_over-injective e = (cc, cc)

module _ {u : UuidCrate} {f : FlagsCrate} {g : GlobCrate} (w : World u f g) where
  abbrev Codes : ℕ → Type 0
  Codes = Between 50 100

  delete_step-Stays : Stays Codes (delete_step w)
  delete_step-Stays = record {
    from = λ h. of_run h (delete_ramfs (files w) w.fuel (w.machine h.tree) h.tree);
  }
    where
      of_run :
          (h : State w) (o : Option (Outcome (Unit {0}) × w.Tree)) → Within Codes (deleted w h o).0
      of_run h none = tt
      of_run h (some (o, t)) =
          (bail-Stays {P = Codes} 51 (λ h'. (o, h')) (omega arith, omega arith)).from
            (record h { tree = t })

  switch_root-Stays : Stays Codes (switch_root w)
  unfolding switch_root
  switch_root-Stays = >>-Stays _ _ (bail-Stays 50 _ (omega arith, omega arith)) (
      >>-Stays _ _ delete_step-Stays (
        >>-Stays _ _ (bail-Stays 52 _ (omega arith, omega arith)) (
          >>-Stays _ _ (bail-Stays 53 _ (omega arith, omega arith)) (
            >>-Stays _ _ (bail-Stays 54 _ (omega arith, omega arith))
              (bail-Stays 55 _ (omega arith, omega arith))))))

  timer_fd-Stays : (timer : InitramfsTimer) → Stays Codes (timer_fd w timer)
  unfolding timer_fd
  timer_fd-Stays timer =
      >>=-Stays _ _ (bail-Stays 100 _ (omega arith, omega arith))
        (λ memfd. >>-Stays _ _ (bail-Stays 100 _ (omega arith, omega arith)) (pure-Stays memfd.0))

  -- The arguments of the init: its path alone, or with those for systemd and the number of the file
  -- with the timestamps.
  abbrev pub ArgsFor : InitramfsTimer → String → State w → List String → Type 0
  ArgsFor timer init h argv =
      ((is_systemd_compatible (w.links h.tree) (path_of init) ≡ false) × (argv ≡ init ∷ []))
      ⊎ ((is_systemd_compatible (w.links h.tree) (path_of init) ≡ true)
          × ((fd : ℕ) × Recorded w timer h fd
              × (argv ≡ init ∷ "--switched-root" ∷ "--system" ∷ "--deserialize" ∷ show fd ∷ [])))

  init_args-Stays : (timer : InitramfsTimer) (init : String) → Stays Codes (init_args w timer init)
  unfolding init_args
  init_args-Stays timer init = record {
    from = λ h. elim (Bool-cases (is_systemd_compatible (w.links h.tree) (path_of init))) [
      | inl compatible ↦ rw compatible (
          (>>=-Stays _ _ (timer_fd-Stays timer) (λ fd. pure-Stays (systemd_args w init fd))).from h)
      | inr other ↦ rw other ((pure-Stays {P = Codes} (init ∷ [])).from h)
    ];
  }

  init_args_done :
      (timer : InitramfsTimer) (init : String) (h h' : State w) (argv : List String)
      → init_args w timer init h ≡ (done argv, h')
      → ArgsFor timer init h argv
  unfolding init_args ◌>>=◌ pure
  init_args_done timer init h h' argv e =
      elim (Bool-cases (is_systemd_compatible (w.links h.tree) (path_of init))) [
        | inr other ↦ inl (other, sym (done-injective {S = State w} (rw (init_args, other) at e)))
        | inl compatible ↦
            let (fd, s, first, rest) =
              proceed_done (λ fd. pure (systemd_args w init fd)) (timer_fd w timer h)
                (rw (init_args, compatible) at e) in
            inr
              (compatible, (fd, timer_fd-Recorded w timer h s fd first, sym (done-injective rest)))
      ]

  exec_step_replaced :
      (init : String) (args : List String) (h : State w) {path : String} {argv : List String}
      → (exec_step w init args h).0 ≡ handed_over path argv
      → (path ≡ init) × (argv ≡ args)
  exec_step_replaced init args h e = elim (Bool-cases (w.execv init args h.tree)) [
    | inl worked ↦ handed_over-injective {A = Unit {0}} (rw worked at e)
    | inr failed ↦ absurd (not_handed (rw failed at e))
  ]
    where
      not_handed :
          {path m : String} {argv : List String} {code : ℕ}
          → ◌≢◌ {A = Exit (Unit {0})} (exit code m) (handed_over path argv)
      not_handed x = cc

  pub exec_target_init-ArgsFor :
      (timer : InitramfsTimer) (args : CmdlineArgs u.Uuid f.Flags) (h : State w) (path : String)
      (argv : List String)
      → (exec_target_init w timer args h).0 ≡ handed_over path argv
      → (path ≡ args.init) × ((h' : State w) × Switched w h h' × ArgsFor timer args.init h' argv)
  unfolding exec_target_init ◌>>=◌ ◌>>◌
  exec_target_init-ArgsFor timer args h path argv e =
      let (a, s, switched, later) =
        handed_over_later Codes _ (switch_root w h) (switch_root-Stays.from h) e in
      let (given, s', prepared, last) =
        handed_over_later Codes (exec_step w args.init) (init_args w timer args.init s)
          ((init_args-Stays timer args.init).from s) later in
      let (same_path, same_args) = exec_step_replaced args.init given s' last in
      (
        same_path,
        (
          s,
          switch_root-Switched w h s switched,
          subst (ArgsFor timer args.init s) (sym same_args)
              (init_args_done timer args.init s s' given prepared),
        ),
      )
