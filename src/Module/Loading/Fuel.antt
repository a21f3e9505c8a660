-- ===== src/Module/Loading/Fuel.antt =====
-- `load_modules_unlocked` with different amounts of fuel.
use mathlib.Core.Path.{subst}
use ignited.Prelude.{
  arith, ℕ, zero, suc, ◌+◌, String, ◌≡◌, refl, inl, inr, Option, none, some, List, [], ◌∷◌,
  Bool-cases, Option-cases,
}
use ignited.Prelude.Assoc
use ignited.Config.Runtime.{InitramfsMetadata}
use ignited.Module.Loading.Cases.{bind_loader-eq-some}
use ignited.Module.Loading.{
  Loader, is_skipped, deps_of, then_spawn, load_one, load_each, load_modules_unlocked,
}

module _ (meta : InitramfsMetadata) where
  -- Where the first returns, the second returns the same.
  abbrev IsExtended :
      (List String → ℕ → Loader → Option Loader)
      → (List String → ℕ → Loader → Option Loader)
      → Type 0
  IsExtended f g =
      (ms : List String) (w : ℕ) (st st' : Loader) → f ms w st ≡ some st' → g ms w st ≡ some st'

  then_spawn-extended :
      (m : String) (d w : ℕ) (a b : Option Loader) {st : Loader}
      → ((st2 : Loader) → a ≡ some st2 → b ≡ some st2)
      → then_spawn meta m d w a ≡ some st
      → then_spawn meta m d w b ≡ some st
  then_spawn-extended m d w none b more h = cc
  then_spawn-extended m d w (some st2) b more h = rw (more st2 refl) h

  load_one-extended :
      (f g : List String → ℕ → Loader → Option Loader)
      → IsExtended f g
      → (m : String) (w : ℕ) (st st' : Loader) → load_one meta f m w st ≡ some st'
      → load_one meta g m w st ≡ some st'
  unfolding load_one
  load_one-extended f g more m w st st' h = elim (Bool-cases (is_skipped meta st m)) [
    | inl skip ↦ rw (load_one, skip) (rw (load_one, skip) at h)
    | inr other ↦ elim (Option-cases (Assoc.get st.inner.loading m)) [
      | inr (wgs, there) ↦ rw (load_one, other, there) (rw (load_one, other, there) at h)
      | inl vacant ↦
          rw (load_one, other, vacant)
            (then_spawn-extended m st.next_wg w _ _ (λ st2. more (deps_of meta m) st.next_wg _ st2)
              (rw (load_one, other, vacant) at h))
    ]
  ]

  load_each-IsExtended :
      (f g : List String → ℕ → Loader → Option Loader)
      → IsExtended f g
      → IsExtended (load_each meta f) (load_each meta g)
  unfolding load_each
  load_each-IsExtended f g more [] w st st' h = h
  load_each-IsExtended f g more (m ∷ ms) w st st' h =
      let (st1, one, rest) = bind_loader-eq-some meta _ _ h in
      rw (load_one-extended f g more m w st st1 one)
        (load_each-IsExtended f g more ms w st1 st' rest)

  one_more :
      (n : ℕ) → IsExtended (load_modules_unlocked meta n) (load_modules_unlocked meta (suc n))
  unfolding load_modules_unlocked
  one_more zero ms w st st' h = cc
  one_more (suc n) ms w st st' h =
      load_each-IsExtended (load_modules_unlocked meta n) (load_modules_unlocked meta (suc n))
        (one_more n) ms w st st' h

  -- Fuel `m` is `k` more than `n`.
  pub load_modules_unlocked-more :
      (k n m : ℕ) (ms : List String) (w : ℕ) (st st' : Loader)
      → m ≡ k + n
      → load_modules_unlocked meta n ms w st ≡ some st'
      → load_modules_unlocked meta m ms w st ≡ some st'
  load_modules_unlocked-more zero n m ms w st st' e h =
      subst (λ x. load_modules_unlocked meta x ms w st ≡ some st') (omega arith) h
  load_modules_unlocked-more (suc k) n m ms w st st' e h =
      subst (λ x. load_modules_unlocked meta x ms w st ≡ some st') (omega arith)
        (one_more (k + n) ms w st st' (load_modules_unlocked-more k n (k + n) ms w st st' refl h))
