-- ===== src/Module/Loading/Cost.antt =====
-- How much work a call of `load_modules_unlocked` leaves for the threads.
use mathlib.Core.Path.{subst}
use mathlib.Core.Option.{some-injective}
use ignited.Prelude.{
  ℕ, zero, suc, ◌+◌, ◌≤◌, String, ◌≡◌, refl, inl, inr, Option, some, List, [], ◌∷◌, ◌++◌, arith,
}
use ignited.Config.Runtime.{InitramfsMetadata}
use ignited.Module.Loading.Cases.{load_one-cases, bind_loader-eq-some}
use ignited.Module.Loading.{
  Job, Loader, deps_of, post_deps_of, record_handle, fresh_group, load_one, load_each,
  load_modules_unlocked,
}

abbrev pub sum : (Job → ℕ) → List Job → ℕ
sum f [] = 0
sum f (j ∷ js) = f j + sum f js

pub sum-append : (f : Job → ℕ) (js ks : List Job) → sum f (js ++ ks) ≡ sum f js + sum f ks
sum-append f [] ks = omega arith
sum-append f (j ∷ js) ks = omega (arith, sum-append f js ks)

pub sum-without :
    (f : Job → ℕ) (before : List Job) (j : Job) (after : List Job)
    → sum f (before ++ j ∷ after) ≡ f j + sum f (before ++ after)
sum-without f [] j after = refl
sum-without f (k ∷ before) j after = omega (arith, sum-without f before j after)

module _ (meta : InitramfsMetadata) (cost : String → ℕ) where
  abbrev pub total : List String → ℕ
  total [] = 0
  total (m ∷ ms) = cost m + total ms

  -- What is left for a thread behind the kernel's answer, and for one before it.
  abbrev pub left_behind : Job → ℕ
  left_behind j = suc (total (post_deps_of meta j.module_name))

  abbrev pub left_before : Job → ℕ
  left_before j = suc (left_behind j)

  -- A call adds no more than what its modules cost.
  abbrev pub IsPaid : Loader → Loader → ℕ → Type 0
  IsPaid st st' n =
      (st'.inner.loaded ≡ []) × (sum left_before st'.jobs ≤ sum left_before st.jobs + n)

  abbrev Pays : (List String → ℕ → Loader → Option Loader) → Type 0
  Pays f =
      (ms : List String) (w : ℕ) (st st' : Loader)
      → st.inner.loaded ≡ []
      → f ms w st ≡ some st'
      → IsPaid st st' (total ms)

  -- A thread's two steps, its dependencies, and what is to be loaded afterwards.
  abbrev pub Covers : String → Type 0
  Covers m = suc (suc (total (deps_of meta m) + total (post_deps_of meta m))) ≤ cost m

  load_one-IsPaid :
      (f : List String → ℕ → Loader → Option Loader)
      → ((m : String) → Covers m)
      → Pays f
      → (x : String) (w : ℕ) (st st' : Loader) → st.inner.loaded ≡ []
      → load_one meta f x w st ≡ some st'
      → IsPaid st st' (cost x)
  load_one-IsPaid f covers pays x w st st' empty h =
      elim (load_one-cases meta f x w st st' empty h) [
        | inl (builtin, e) ↦ subst (λ u. IsPaid st u (cost x)) e (empty, omega arith)
        | inr (inl (wgs, there, e)) ↦ subst (λ u. IsPaid st u (cost x)) e (empty, omega arith)
        | inr (inr (st2, vacant, deps, e)) ↦
            let (still, le) =
              pays (deps_of meta x) st.next_wg (fresh_group meta (record_handle meta st x (w ∷ [])))
                st2 empty deps in
            let new : List Job =
              record { module_name = x; deps_wg = st.next_wg; orig_wg = w } ∷ [] in
            let bound : sum left_before (st2.jobs ++ new) ≤ sum left_before st.jobs + cost x =
              let c = covers x in omega (arith, sum-append left_before st2.jobs new) in
            subst (λ u. IsPaid st u (cost x)) e (still, bound)
      ]

  load_each-Pays :
      (f : List String → ℕ → Loader → Option Loader)
      → ((m : String) → Covers m)
      → Pays f
      → Pays (load_each meta f)
  unfolding load_each
  load_each-Pays f covers pays [] w st st' empty h =
      subst (λ u. IsPaid st u 0) (some-injective st st' h) (empty, omega arith)
  load_each-Pays f covers pays (x ∷ xs) w st st' empty h =
      let (st1, one, rest) = bind_loader-eq-some meta _ _ h in
      let (empty1, le) = load_one-IsPaid f covers pays x w st st1 empty one in
      let (empty2, le2) = load_each-Pays f covers pays xs w st1 st' empty1 rest in
      (empty2, omega arith)

  pub load_modules_unlocked-Pays :
      ((m : String) → Covers m) → (n : ℕ) → Pays (load_modules_unlocked meta n)
  unfolding load_modules_unlocked
  load_modules_unlocked-Pays covers zero ms w st st' empty h = cc
  load_modules_unlocked-Pays covers (suc n) ms w st st' empty h =
      load_each-Pays (load_modules_unlocked meta n) covers (load_modules_unlocked-Pays covers n) ms
        w st st' empty h
