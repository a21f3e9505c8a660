-- ===== src/Module/Loading/Effect.antt =====
-- What a call of `load_modules_unlocked` does to the bookkeeping and the threads.
use mathlib.Core.Path.{subst}
use mathlib.Core.Option.{some-injective}
use ignited.Prelude.{
  All-map, ℕ, zero, suc, String, true, ◌≡◌, refl, ap, ◌∙◌, ◌⊎◌, inl, inr, Option, none, some, List,
  [], ◌∷◌, ◌++◌, unwrap_or, All, All-append,
}
use ignited.Prelude.Assoc
use ignited.Prelude.Assoc.{get-put}
use ignited.Config.Runtime.{InitramfsMetadata}
use ignited.Module.Loading.Cases.{load_one-cases, bind_loader-eq-some}
use ignited.Module.Loading.{
  Job, Loader, contains, deps_of, record_handle, fresh_group, spawn, load_one, load_each,
  load_modules_unlocked,
}
use ignited.Module.Loading.Kept.{
  In-append_left, In-append_last, Holds, Extends, Extends-refl, Extends-trans,
  record_handle-Extends, record_handle_self, entry-Extends,
}

module _ (meta : InitramfsMetadata) where
  -- The module needs no waiting for, or a clone of the group is kept for it.
  abbrev pub Covered : Loader → ℕ → String → Type 0
  Covered st w m = (contains meta.module_builtin m ≡ true) ⊎ Holds st m w

  module _ (inited : List String) where
    -- A dependency is built in, initialised, or the thread's group is kept for it.
    abbrev pub Settled : Loader → ℕ → String → Type 0
    Settled st w m =
        (contains meta.module_builtin m ≡ true) ⊎ ((contains inited m ≡ true) ⊎ Holds st m w)

    abbrev pub Waits : Loader → Job → Type 0
    Waits st j = All (Settled st j.deps_wg) (deps_of meta j.module_name)

    abbrev pub AllWait : Loader → Type 0
    AllWait st = All (Waits st) st.jobs

    pub Settled-Extends :
        {st st' : Loader} (w : ℕ) (m : String) → Extends st st' → Settled st w m → Settled st' w m
    Settled-Extends w m x (inl b) = inl b
    Settled-Extends w m x (inr (inl d)) = inr (inl d)
    Settled-Extends w m x (inr (inr h)) = inr (inr (x.keeps m w h))

    Waits-Extends : {st st' : Loader} (j : Job) → Extends st st' → Waits st j → Waits st' j
    Waits-Extends j x h =
        All-map (deps_of meta j.module_name) (λ m. Settled-Extends j.deps_wg m x) h

    -- What a call has done when it returns.
    pub record Loads (ms : List String) (w : ℕ) (st st' : Loader) : Type 0 where
      pub extends : Extends st st'
      pub covered : All (Covered st' w) ms
      pub all_wait : AllWait st'

    abbrev pub IsLoading : (List String → ℕ → Loader → Option Loader) → Type 0
    IsLoading f =
        (ms : List String) (w : ℕ) (st st' : Loader)
        → st.inner.loaded ≡ []
        → AllWait st
        → f ms w st ≡ some st'
        → Loads ms w st st'

    Covered-Settled :
        (st : Loader) (w : ℕ) (ms : List String) → All (Covered st w) ms → All (Settled st w) ms
    Covered-Settled st w ms h = All-map ms (λ m c. elim c [ inl b ↦ inl b | inr k ↦ inr (inr k) ]) h

    -- A thread that is spawned behind the loading of its dependencies waits for them.
    spawn-AllWait :
        (m : String) (d w : ℕ) (st : Loader)
        → AllWait st
        → All (Covered st d) (deps_of meta m)
        → AllWait (spawn meta m d w st)
    spawn-AllWait m d w st waits deps =
        All-append (Waits st) st.jobs _ waits (Covered-Settled st d (deps_of meta m) deps, tt)

    -- A module with no entry: the entry, the dependencies, and the thread.
    vacant-Loads :
        (m : String) (w : ℕ) (st st2 : Loader)
        → Assoc.get st.inner.loading m ≡ none
        → Loads
            (deps_of meta m)
            st.next_wg
            (fresh_group meta (record_handle meta st m (w ∷ [])))
            st2
        → Loads (m ∷ []) w st (spawn meta m st.next_wg w st2)
    vacant-Loads m w st st2 vacant deps =
        let x : Extends st st2 = Extends-trans (entry-Extends meta st m w vacant) deps.extends in
        let held : Holds st2 m w =
          deps.extends.keeps m w (rw (record_handle_self meta st m (w ∷ [])) (inl refl)) in
        record {
          extends = record { same_loaded = x.same_loaded; keeps = x.keeps };
          covered = (inr held, tt);
          all_wait = spawn-AllWait m st.next_wg w st2 deps.all_wait deps.covered;
        }

    -- A module that is being loaded: a clone of the group is put behind the others.
    occupied-Loads :
        (m : String) (w : ℕ) (st : Loader) (wgs : List ℕ)
        → AllWait st
        → Assoc.get st.inner.loading m ≡ some wgs
        → Loads (m ∷ []) w st (record_handle meta st m (wgs ++ w ∷ []))
    occupied-Loads m w st wgs waits there =
        let x : Extends st (record_handle meta st m (wgs ++ w ∷ [])) =
          record_handle-Extends meta st m (wgs ++ w ∷ [])
            (λ v i. In-append_left v wgs (w ∷ []) (rw (ap (λ o. unwrap_or o []) there) at i)) in
        record {
          extends = x;
          covered =
              (inr (rw (record_handle_self meta st m (wgs ++ w ∷ [])) (In-append_last w wgs)), tt);
          all_wait = All-map st.jobs (λ j. Waits-Extends j x) waits;
        }

    load_one-IsLoading :
        (f : List String → ℕ → Loader → Option Loader)
        → IsLoading f
        → (m : String) (w : ℕ) (st st' : Loader) → st.inner.loaded ≡ []
        → AllWait st
        → load_one meta f m w st ≡ some st'
        → Loads (m ∷ []) w st st'
    load_one-IsLoading f is m w st st' empty waits h =
        elim (load_one-cases meta f m w st st' empty h) [
          | inl (builtin, e) ↦
              subst (Loads (m ∷ []) w st) e (record {
                extends = Extends-refl st;
                covered = (inl builtin, tt);
                all_wait = waits;
              })
          | inr (inl (wgs, there, e)) ↦
              subst (Loads (m ∷ []) w st) e (occupied-Loads m w st wgs waits there)
          | inr (inr (st2, vacant, deps, e)) ↦
              let st1 : Loader = fresh_group meta (record_handle meta st m (w ∷ [])) in
              let x : Extends st st1 = entry-Extends meta st m w vacant in
              subst (Loads (m ∷ []) w st) e (
                vacant-Loads m w st st2 vacant (
                  is (deps_of meta m) st.next_wg st1 st2 empty
                    (All-map st.jobs (λ j. Waits-Extends j x) waits) deps))
        ]

    load_each-IsLoading :
        (f : List String → ℕ → Loader → Option Loader) → IsLoading f → IsLoading (load_each meta f)
    unfolding load_each
    load_each-IsLoading f is [] w st st' empty waits h =
        subst (Loads [] w st) (some-injective st st' h)
          (record { extends = Extends-refl st; covered = tt; all_wait = waits })
    load_each-IsLoading f is (m ∷ ms) w st st' empty waits h =
        let (st1, one, rest) = bind_loader-eq-some meta _ _ h in
        let first : Loads (m ∷ []) w st st1 = load_one-IsLoading f is m w st st1 empty waits one in
        let later : Loads ms w st1 st' =
          load_each-IsLoading f is ms w st1 st' (first.extends.same_loaded ∙ empty) first.all_wait
            rest in
        record {
          extends = Extends-trans first.extends later.extends;
          covered = (
            elim first.covered.0 [ inl b ↦ inl b | inr k ↦ inr (later.extends.keeps m w k) ],
            later.covered,
          );
          all_wait = later.all_wait;
        }

    load_modules_unlocked-IsLoading : (n : ℕ) → IsLoading (load_modules_unlocked meta n)
    unfolding load_modules_unlocked
    load_modules_unlocked-IsLoading zero ms w st st' empty waits h = cc
    load_modules_unlocked-IsLoading (suc n) ms w st st' empty waits h =
        load_each-IsLoading (load_modules_unlocked meta n) (load_modules_unlocked-IsLoading n) ms w
          st st' empty waits h

    -- A call, on bookkeeping without a loaded module in which each thread waits for its
    -- dependencies, gives up no kept clone of a group, puts a clone of its own group beside every
    -- module that is not built in, and each thread waits for its dependencies again.
    pub load_modules_unlocked-Loads :
        (n : ℕ) (ms : List String) (w : ℕ) (st st' : Loader)
        → st.inner.loaded ≡ []
        → AllWait st
        → load_modules_unlocked meta n ms w st ≡ some st'
        → Loads ms w st st'
    load_modules_unlocked-Loads n ms w st st' empty waits h =
        load_modules_unlocked-IsLoading n ms w st st' empty waits h
