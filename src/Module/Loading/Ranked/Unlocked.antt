-- ===== src/Module/Loading/Ranked/Unlocked.antt =====
-- The recursion of `load_modules_unlocked` over the dependencies.
use mathlib.Core.Path.{subst}
use mathlib.Core.Option.{some-injective}
use ignited.Prelude.{
  All-map, ℕ, zero, suc, ◌<◌, String, ◌≡◌, ap, inl, inr, Option, some, List, [], ◌∷◌, ◌++◌, eq_refl,
  arith, unwrap_or, All,
}
use ignited.Prelude.Assoc
use ignited.Config.Runtime.{InitramfsMetadata}
use ignited.Module.Loading.Cases.{load_one-cases, bind_loader-eq-some}
use ignited.Module.Loading.{
  Loader, contains, deps_of, record_handle, fresh_group, spawn, load_one, load_each,
  load_modules_unlocked,
}
use ignited.Module.Loading.Ranked.{Waited, dep, Allowed, Fits, Adds, Under-Adds, Fits-Adds}
use ignited.Module.Loading.Ranked.Calls.{
  contains_all, set-Adds, entry-Adds, weaken_names, Grows, Adds-Grows, Grows-cons, IsFitting,
  new_Under, spawn-Fits, spawn-Grows,
}

module _ (meta : InitramfsMetadata) where
  Grows-refl : (w : ℕ) (ms : List String) (st : Loader) → Grows meta w ms st st
  Grows-refl w ms st = record {
    next_le = omega arith;
    keeps_under = λ v m below ok u. u;
    keeps_jobs = λ Q new old. old;
  }

  abbrev Result : List String → List String → ℕ → Loader → Loader → Type 1
  Result names ms w st st' = Fits meta names st' × Grows meta w ms st st'

  occupied-Result :
      (names : List String) (x : String) (w : ℕ) (st : Loader) (wgs : List ℕ)
      → Fits meta names st
      → w < st.next_wg
      → Allowed meta w (x ∷ []) st
      → Assoc.get st.inner.loading x ≡ some wgs
      → Result names (x ∷ []) w st (record_handle meta st x (wgs ++ w ∷ []))
  occupied-Result names x w st wgs i below allowed there =
      let a : Adds meta x w st (record_handle meta st x (wgs ++ w ∷ [])) =
        set-Adds meta st x w wgs (λ v h. rw (ap (λ o. unwrap_or o []) there) h) in
      (Fits-Adds meta names a i below allowed (i.owned x wgs there), Adds-Grows meta a)

  vacant-Result :
      (f : List String → ℕ → Loader → Option Loader)
      → IsFitting meta f
      → (names : List String) (x : String) (w : ℕ) (st st2 : Loader) → Fits meta names st
      → w < st.next_wg
      → Allowed meta w (x ∷ []) st
      → f (deps_of meta x) st.next_wg (fresh_group meta (record_handle meta st x (w ∷ [])))
        ≡ some st2
      → Result names (x ∷ []) w st (spawn meta x st.next_wg w st2)
  vacant-Result f is names x w st st2 i below allowed h =
      let st1 : Loader = fresh_group meta (record_handle meta st x (w ∷ [])) in
      let d : ℕ = st.next_wg in
      let a : Adds meta x w st st1 = entry-Adds meta st x w in
      let start : Fits meta (x ∷ names) st1 =
        Fits-Adds meta (x ∷ names) a (weaken_names meta st x names i) (omega arith) allowed
          (inl (unfold contains in rw (eq_refl x))) in
      let r =
        is (x ∷ names) (deps_of meta x) d st1 st2 start (omega arith)
          (All-map st.jobs (λ j u e. absurd (omega arith)) i.jobs_below) h in
      let waited : All (Waited meta x) (deps_of meta x) =
        contains_all (Waited meta x) (deps_of meta x) (λ y e. dep y e) in
      let mine =
        r.1.keeps_under d x (omega arith) (λ e. waited)
          (new_Under meta names st st1 x w i below a) in
      let le = r.1.next_le in
      let still =
        r.1.keeps_jobs (λ j. j.deps_wg ≡ w → All (Waited meta j.module_name) (x ∷ []))
          (λ j new e. absurd (omega arith)) allowed in
      (
        spawn-Fits meta names x d w st2 r.0 (omega arith) below still mine,
        spawn-Grows meta x d w st st2 (omega arith) (omega arith)
            (λ v m less ok u.
              r.1.keeps_under v m (omega arith) (λ e. absurd (omega arith))
                (Under-Adds meta v m a (λ e. (ok e).0) u))
            (λ Q new old. r.1.keeps_jobs Q (λ j h. new j (omega arith)) old),
      )

  load_one-Result :
      (f : List String → ℕ → Loader → Option Loader)
      → IsFitting meta f
      → (names : List String) (x : String) (w : ℕ) (st st' : Loader) → Fits meta names st
      → w < st.next_wg
      → Allowed meta w (x ∷ []) st
      → load_one meta f x w st ≡ some st'
      → Result names (x ∷ []) w st st'
  load_one-Result f is names x w st st' i below allowed h =
      elim (load_one-cases meta f x w st st' i.none_loaded h) [
        | inl (builtin, e) ↦ subst (Result names (x ∷ []) w st) e (i, Grows-refl w (x ∷ []) st)
        | inr (inl (wgs, there, e)) ↦
            subst (Result names (x ∷ []) w st) e
              (occupied-Result names x w st wgs i below allowed there)
        | inr (inr (st2, vacant, deps, e)) ↦
            subst (Result names (x ∷ []) w st) e
              (vacant-Result f is names x w st st2 i below allowed deps)
      ]

  load_each-IsFitting :
      (f : List String → ℕ → Loader → Option Loader)
      → IsFitting meta f
      → IsFitting meta (load_each meta f)
  unfolding load_each
  load_each-IsFitting f is names [] w st st' i below allowed h =
      subst (Result names [] w st) (some-injective st st' h) (i, Grows-refl w [] st)
  load_each-IsFitting f is names (x ∷ xs) w st st' i below allowed h =
      let (st1, one, rest) = bind_loader-eq-some meta _ _ h in
      let first =
        load_one-Result f is names x w st st1 i below
          (All-map st.jobs (λ j ok e. ((ok e).0, tt)) allowed) one in
      let le = first.1.next_le in
      let later =
        load_each-IsFitting f is names xs w st1 st' first.0 (omega arith)
          (first.1.keeps_jobs (λ j. j.deps_wg ≡ w → All (Waited meta j.module_name) xs)
            (λ j new e. absurd (omega arith)) (All-map st.jobs (λ j ok e. (ok e).1) allowed))
          rest in
      (later.0, Grows-cons meta first.1 later.1)

  -- A call for modules that the threads of its group may have to wait for leaves each thread with
  -- groups that it may have to wait for, and every entry with a thread.
  pub load_modules_unlocked-IsFitting : (n : ℕ) → IsFitting meta (load_modules_unlocked meta n)
  unfolding load_modules_unlocked
  load_modules_unlocked-IsFitting zero names ms w st st' i below allowed h = cc
  load_modules_unlocked-IsFitting (suc n) names ms w st st' i below allowed h =
      load_each-IsFitting (load_modules_unlocked meta n) (load_modules_unlocked-IsFitting n) names
        ms w st st' i below allowed h
