-- ===== src/Config/Cmdline/Loop.antt =====
-- A variable that each argument changes in its own way is changed by a successful loop as by a
-- fold over the arguments.
use mathlib.Core.List.{foldl}
use ignited.Prelude.{
  String, ◌≡◌, refl, ◌∙◌, ap, Option, List, [], ◌∷◌, or_else, find_map, foldl-or_else,
}
use ignited.Prelude.Outcome.{Outcome, ok, err, panic, ◌>>◌}
use ignited.Mount.Source.{UuidCrate}
use ignited.Mount.Options.{FlagsCrate}
use ignited.Config.Cmdline.{State, parse_arg, and_then, parse_loop}

module _ (u : UuidCrate) (f : FlagsCrate) where
  module _ {ℓ} {A : Type ℓ} (field : State u f → A) (change : A → String → A)
      (step : (s : State u f) (arg : String)
        → field (parse_arg u f s arg).1 ≡ change (field s) arg) where
    field-and_then :
        (r : Outcome (Unit {0}) × State u f) (args : List String)
        → ((parse_loop u f r.1 args).0 ≡ ok tt
            → field (parse_loop u f r.1 args).1 ≡ foldl change (field r.1) args)
        → (and_then u f r (λ s. parse_loop u f s args)).0 ≡ ok tt
        → field (and_then u f r (λ s. parse_loop u f s args)).1 ≡ foldl change (field r.1) args
    field-and_then (ok t, s) args ih h = ih h
    field-and_then (err e, s) args ih h = cc
    field-and_then (panic, s) args ih h = cc

    pub field-parse_loop :
        (s : State u f) (args : List String)
        → (parse_loop u f s args).0 ≡ ok tt
        → field (parse_loop u f s args).1 ≡ foldl change (field s) args
    unfolding parse_loop
    field-parse_loop s [] h = refl
    field-parse_loop s (arg ∷ args) h =
        field-and_then (parse_arg u f s arg) args (field-parse_loop (parse_arg u f s arg).1 args) h
        ∙ ap (λ x. foldl change x args) (step s arg)

  module _ {ℓ} {A : Type ℓ} (field : State u f → Option A) (gives : String → Option A)
      (step : (s : State u f) (arg : String)
        → field (parse_arg u f s arg).1 ≡ or_else (field s) (gives arg)) where
    -- A variable that keeps its first value.
    pub first-parse_loop :
        (s : State u f) (args : List String)
        → (parse_loop u f s args).0 ≡ ok tt
        → field (parse_loop u f s args).1 ≡ or_else (field s) (find_map gives args)
    first-parse_loop s args h =
        field-parse_loop field (λ o a. or_else o (gives a)) step s args h
        ∙ foldl-or_else gives (field s) args

  -- The outcome of the loop is that of the first argument that is not accepted.
  abbrev pub verdicts : (String → Outcome (Unit {0})) → List String → Outcome (Unit {0})
  verdicts verdict [] = ok tt
  verdicts verdict (arg ∷ args) = verdict arg >> verdicts verdict args

  verdict-and_then :
      (r : Outcome (Unit {0}) × State u f) (args : List String) (later : Outcome (Unit {0}))
      → (parse_loop u f r.1 args).0 ≡ later
      → (and_then u f r (λ s. parse_loop u f s args)).0 ≡ (r.0 >> later)
  verdict-and_then (ok t, s) args later ih = ih
  verdict-and_then (err e, s) args later ih = refl
  verdict-and_then (panic, s) args later ih = refl

  pub verdict-parse_loop :
      (verdict : String → Outcome (Unit {0}))
      → ((s : State u f) (arg : String) → (parse_arg u f s arg).0 ≡ verdict arg)
      → (s : State u f) (args : List String) → (parse_loop u f s args).0 ≡ verdicts verdict args
  unfolding parse_loop
  verdict-parse_loop verdict step s [] = refl
  verdict-parse_loop verdict step s (arg ∷ args) =
      verdict-and_then (parse_arg u f s arg) args (verdicts verdict args)
        (verdict-parse_loop verdict step (parse_arg u f s arg).1 args)
      ∙ ap (λ v. v >> verdicts verdict args) (step s arg)

  module _ (P : State u f → Type 0)
      (keep : (s : State u f) (arg : String) → P s → P (parse_arg u f s arg).1) where
    keep-and_then :
        (r : Outcome (Unit {0}) × State u f) (next : State u f → Outcome (Unit {0}) × State u f)
        → ((s : State u f) → P s → P (next s).1)
        → P r.1
        → P (and_then u f r next).1
    keep-and_then (ok t, s) next k h = k s h
    keep-and_then (err e, s) next k h = h
    keep-and_then (panic, s) next k h = h

    -- An invariant of the loop, also where it ends early.
    pub keep-parse_loop : (args : List String) (s : State u f) → P s → P (parse_loop u f s args).1
    unfolding parse_loop
    keep-parse_loop [] s h = h
    keep-parse_loop (arg ∷ args) s h =
        keep-and_then (parse_arg u f s arg) (λ s'. parse_loop u f s' args) (keep-parse_loop args)
          (keep s arg h)
