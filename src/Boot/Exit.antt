-- ===== src/Boot/Exit.antt =====
-- What the functions of src/main.rs end with: `ExitError` is a message with the code that the program
-- exits with.
use ignited.Prelude.{ℕ, String, List}
use ignited.Prelude.Outcome.{Outcome, ok, err, panic}
use ignited.Prelude.Run.{Run}

pub data Exit (A : Type 0) : Type 0 where
  done : A → Exit A
  exit : ℕ → String → Exit A
  panicked : Exit A
  -- Not ended yet, with the fuel or the answers that are given.
  running : Exit A
  -- The program is another one now: its path and its arguments.
  handed_over : String → List String → Exit A

abbrev pub Action : Type 0 → Type 0 → Type 0
Action S A = S → Exit A × S

module _ {S A B : Type 0} where
  abbrev pub proceed : (A → Action S B) → Exit A × S → Exit B × S
  proceed next (done a, s) = next a s
  proceed next (exit code message, s) = (exit code message, s)
  proceed next (panicked, s) = (panicked, s)
  proceed next (running, s) = (running, s)
  proceed next (handed_over path argv, s) = (handed_over path argv, s)

infixl 5 ◌>>=◌ ◌>>◌
unfoldable pub ◌>>=◌ : {S A B : Type 0} → Action S A → (A → Action S B) → Action S B
◌>>=◌ step next s = proceed next (step s)

unfoldable pub ◌>>◌ : {S A B : Type 0} → Action S A → Action S B → Action S B
◌>>◌ step later s = proceed (λ a. later) (step s)

abbrev exit_of : {A : Type 0} → ℕ → Outcome A → Exit A
exit_of code (ok a) = done a
exit_of code (err e) = exit code e
exit_of code panic = panicked

-- `bail`: an error is given a code.
unfoldable pub bail : {S A : Type 0} → ℕ → Run S A → Action S A
bail code call s = let (o, s') = call s in (exit_of code o, s')

unfoldable pub pure : {S A : Type 0} → A → Action S A
pure a s = (done a, s)

-- Where an action can end: behind it, in a panic, running on, or at a code that the predicate has.
abbrev pub Within : {A : Type 0} → (ℕ → Type 0) → Exit A → Type 0
Within P (done a) = Unit
Within P (exit code message) = P code
Within P panicked = Unit
Within P running = Unit
Within P (handed_over path argv) = ⊥

-- The same without the end behind it.
abbrev pub Barred : {A : Type 0} → (ℕ → Type 0) → Exit A → Type 0
Barred P (done a) = ⊥
Barred P (exit code message) = P code
Barred P panicked = Unit
Barred P running = Unit
Barred P (handed_over path argv) = ⊥

of_outcome-Within :
    {A : Type 0} (P : ℕ → Type 0) (code : ℕ) (o : Outcome A) → P code → Within P (exit_of code o)
of_outcome-Within P code (ok a) p = tt
of_outcome-Within P code (err e) p = p
of_outcome-Within P code panic p = tt

module _ {S A B : Type 0} (P : ℕ → Type 0) where
  proceed-Within :
      (next : A → Action S B) (r : Exit A × S)
      → Within P r.0
      → ((a : A) (s : S) → Within P (next a s).0)
      → Within P (proceed next r).0
  proceed-Within next (done a, s) h later = later a s
  proceed-Within next (exit code message, s) h later = h
  proceed-Within next (panicked, s) h later = tt
  proceed-Within next (running, s) h later = tt
  proceed-Within next (handed_over path argv, s) h later = h

  proceed-Barred :
      (next : A → Action S B) (r : Exit A × S)
      → Within P r.0
      → ((a : A) (s : S) → Barred P (next a s).0)
      → Barred P (proceed next r).0
  proceed-Barred next (done a, s) h later = later a s
  proceed-Barred next (exit code message, s) h later = h
  proceed-Barred next (panicked, s) h later = tt
  proceed-Barred next (running, s) h later = tt
  proceed-Barred next (handed_over path argv, s) h later = h

  proceed-Barred_first :
      (next : A → Action S B) (r : Exit A × S) → Barred P r.0 → Barred P (proceed next r).0
  proceed-Barred_first next (done a, s) h = absurd h
  proceed-Barred_first next (exit code message, s) h = h
  proceed-Barred_first next (panicked, s) h = tt
  proceed-Barred_first next (running, s) h = tt
  proceed-Barred_first next (handed_over path argv, s) h = h

-- The same of an action, wherever it starts.
pub record Stays {S A : Type 0} (P : ℕ → Type 0) (step : Action S A) : Type 0 where
  pub from : (s : S) → Within P (step s).0

pub record Fails {S A : Type 0} (P : ℕ → Type 0) (step : Action S A) : Type 0 where
  pub from : (s : S) → Barred P (step s).0

module _ {S A : Type 0} {P : ℕ → Type 0} where
  pub bail-Stays : (code : ℕ) (call : Run S A) → P code → Stays P (bail code call)
  unfolding bail
  bail-Stays code call p = record { from = λ s. of_outcome-Within P code (call s).0 p }

  pub pure-Stays : (a : A) → Stays {S = S} P (pure a)
  unfolding pure
  pure-Stays a = record { from = λ s. tt }

module _ {S A B : Type 0} {P : ℕ → Type 0} where
  pub >>=-Stays :
      (step : Action S A) (next : A → Action S B)
      → Stays P step
      → ((a : A) → Stays P (next a))
      → Stays P (step >>= next)
  unfolding ◌>>=◌
  >>=-Stays step next h later = record {
    from = λ s. proceed-Within P next (step s) (h.from s) (λ a. (later a).from);
  }

  pub >>-Stays :
      (step : Action S A) (later : Action S B)
      → Stays P step
      → Stays P later
      → Stays P (step >> later)
  unfolding ◌>>◌
  >>-Stays step later h hs = record {
    from = λ s. proceed-Within P (λ a. later) (step s) (h.from s) (λ a. hs.from);
  }

  pub >>=-Fails :
      (step : Action S A) (next : A → Action S B)
      → Stays P step
      → ((a : A) → Fails P (next a))
      → Fails P (step >>= next)
  unfolding ◌>>=◌
  >>=-Fails step next h later = record {
    from = λ s. proceed-Barred P next (step s) (h.from s) (λ a. (later a).from);
  }

  pub >>-Fails :
      (step : Action S A) (later : Action S B)
      → Stays P step
      → Fails P later
      → Fails P (step >> later)
  unfolding ◌>>◌
  >>-Fails step later h hs = record {
    from = λ s. proceed-Barred P (λ a. later) (step s) (h.from s) (λ a. hs.from);
  }

  -- The first step decides when it does not come to its end.
  pub >>=-Fails_first :
      (step : Action S A) (next : A → Action S B) → Fails P step → Fails P (step >>= next)
  unfolding ◌>>=◌
  >>=-Fails_first step next h = record {
    from = λ s. proceed-Barred_first P next (step s) (h.from s);
  }
