-- ===== src/Boot/Silent.antt =====
-- What is logged when `init` fails before the arguments are read.
use ignited.Prelude.{
  ℕ, ◌<◌, String, Bool, true, false, ◌≡◌, refl, ap, ◌∙◌, Option, none, some, arith, if◌then◌else◌,
}
use mathlib.Core.Path.{subst}
use ignited.Prelude.Outcome.{Outcome}
use ignited.Prelude.Run.{Run}
use ignited.Logging.Host.{on_tree}
use ignited.Module.Aliases.{GlobCrate}
use ignited.Mount.Source.{UuidCrate}
use ignited.Mount.Options.{FlagsCrate}
use ignited.Mount.Mounting.{efivarfs}
use ignited.Time.{InitramfsTimer}
use ignited.Util.Pivot.{make_shutdown_pivot_dir}
use ignited.Boot.Exit.{
  Exit, Action, ◌>>=◌, ◌>>◌, bail, pure, done, running, exit, handed_over, panicked, Barred,
  proceed, >>=-Fails,
}
use ignited.Boot.World.{World, State}
use ignited.Boot.Init.{mount_step, mount_all, reads, pivoted, pivot_step, prepare, init}
use ignited.Boot.Ends.{Between, parse_step-Stays, start_init-Fails}

module _ {u : UuidCrate} {f : FlagsCrate} {g : GlobCrate} (w : World u f g) where
  record IsSilent {A : Type 0} (step : Action (State w) A) : Type 0 where
    pub from : (h : State w) → (step h).1.kcon ≡ h.kcon

  proceed-IsSilent :
      {A B : Type 0} (next : A → Action (State w) B) (r : Exit A × State w)
      → ((a : A) (s : State w) → (next a s).1.kcon ≡ s.kcon)
      → (proceed next r).1.kcon ≡ r.1.kcon
  proceed-IsSilent next (done a, s) later = later a s
  proceed-IsSilent next (exit code message, s) later = refl
  proceed-IsSilent next (panicked, s) later = refl
  proceed-IsSilent next (running, s) later = refl
  proceed-IsSilent next (handed_over path argv, s) later = refl

  >>=-IsSilent :
      {A B : Type 0} (step : Action (State w) A) (next : A → Action (State w) B)
      → IsSilent step
      → ((a : A) → IsSilent (next a))
      → IsSilent (step >>= next)
  unfolding ◌>>=◌
  >>=-IsSilent step next h later = record {
    from = λ s. proceed-IsSilent next (step s) (λ a. (later a).from) ∙ h.from s;
  }

  >>-IsSilent :
      {A B : Type 0} (step : Action (State w) A) (later : Action (State w) B)
      → IsSilent step
      → IsSilent later
      → IsSilent (step >> later)
  unfolding ◌>>◌
  >>-IsSilent step later h hs = record {
    from = λ s. proceed-IsSilent (λ a. later) (step s) (λ a. hs.from) ∙ h.from s;
  }

  on_tree-IsSilent :
      {A : Type 0} (code : ℕ) (call : Run w.Tree A)
      → IsSilent (bail {S = State w} code (on_tree call))
  unfolding bail
  on_tree-IsSilent code call = record { from = λ h. refl }

  reads-IsSilent :
      {A : Type 0} (code : ℕ) (read : w.Tree → Outcome A) → IsSilent (reads w code read)
  unfolding bail
  reads-IsSilent code read = record { from = λ h. refl }

  pure-IsSilent : {A : Type 0} (a : A) → IsSilent (pure a)
  unfolding pure
  pure-IsSilent a = record { from = λ h. refl }

  efi_step-IsSilent :
      (b : Bool) → IsSilent (if b then mount_step w efivarfs else pure {S = State w} tt)
  efi_step-IsSilent true = on_tree-IsSilent 3 _
  efi_step-IsSilent false = pure-IsSilent tt

  mount_all-IsSilent : IsSilent (mount_all w)
  unfolding mount_all
  mount_all-IsSilent = >>-IsSilent _ _ (on_tree-IsSilent 3 _) (
      >>-IsSilent _ _ (on_tree-IsSilent 3 _) (
        >>-IsSilent _ _ (on_tree-IsSilent 3 _) (
          >>=-IsSilent _ _ (record { from = λ h. (pure-IsSilent (w.efi_exists h.tree)).from h })
            (λ efi_mode. >>-IsSilent _ _ (efi_step-IsSilent efi_mode) (pure-IsSilent efi_mode)))))

  pivot_step-IsSilent : IsSilent (pivot_step w)
  pivot_step-IsSilent = record {
    from = λ h. of_answer h (make_shutdown_pivot_dir (w.pivot_answer h.tree) w.fuel 0);
  }
    where
      of_answer :
          (h : State w) (o : Option (Outcome (Unit {0}) × ℕ)) → (pivoted w h o).1.kcon ≡ h.kcon
      of_answer h none = refl
      of_answer h (some (o, calls)) = unfold bail in refl

  prepare-IsSilent : IsSilent (prepare w)
  unfolding prepare
  prepare-IsSilent = >>=-IsSilent _ _ mount_all-IsSilent (λ efi_mode.
      >>-IsSilent _ _
        (record { from = λ h. (pure-IsSilent tt).from (record h { tree = w.set_path _ h.tree }) })
        (>>=-IsSilent _ _ (reads-IsSilent 4 _) (λ config. >>-IsSilent _ _ (reads-IsSilent 5 _) (
          >>=-IsSilent _ _ (reads-IsSilent 6 _)
            (λ aliases. >>-IsSilent _ _ pivot_step-IsSilent (pure-IsSilent _))))))

  -- Behind a first part that logs nothing, a low code is one of that part.
  early :
      {A B : Type 0} (next : A → Action (State w) B) (r : Exit A × State w) (code : ℕ)
      (message : String)
      → ((a : A) (s : State w) → Barred (Between 8 13) (next a s).0)
      → (proceed next r).0 ≡ exit code message
      → code < 8
      → (proceed next r).1 ≡ r.1
  early next (done a, s) code message late e low =
      let between : Between 8 13 code = subst (Barred (Between 8 13)) e (late a s) in
      absurd (omega arith)
  early next (exit c m, s) code message late e low = refl
  early next (panicked, s) code message late e low = refl
  early next (running, s) code message late e low = refl
  early next (handed_over path argv, s) code message late e low = refl

  -- When `init` exits with a code below 8, nothing has been logged and no level has been set.
  pub init-IsSilent :
      (timer : InitramfsTimer) (h : State w) (code : ℕ) (message : String)
      → (init w timer h).0 ≡ exit code message
      → code < 8
      → (init w timer h).1.kcon ≡ h.kcon
  unfolding init ◌>>=◌
  init-IsSilent timer h code message e low =
      ap (λ s. s.kcon)
        (early _ (prepare w h) code message
          (λ p s.
            (>>=-Fails _ _ (parse_step-Stays w 8 (omega arith))
                (λ args. start_init-Fails w 8 timer p args (omega arith))).from
              s)
          e low)
      ∙ prepare-IsSilent.from h
