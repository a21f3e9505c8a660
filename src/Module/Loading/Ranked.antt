-- ===== src/Module/Loading/Ranked.antt =====
-- Which modules a thread of src/module.rs may have to wait for, and bookkeeping in which it waits for
-- these.
pub mod Calls
pub mod Unlocked
use mathlib.Core.Path.{subst}
use mathlib.Core.Option.{some-injective}
use ignited.Prelude.{
  All-map, ℕ, zero, suc, ◌≤◌, ◌<◌, String, true, ◌≡◌, refl, ap, sym, ◌∙◌, ◌⊎◌, inl, inr, Option,
  none, some, List, [], ◌∷◌, ◌++◌, ◌==◌, eq_iff, eq_refl, arith, unwrap_or, All, All-append,
  Bool-cases, Option-cases, if◌then◌else◌,
}
use ignited.Prelude.Assoc
use ignited.Prelude.Assoc.{get-put}
use ignited.Config.Runtime.{InitramfsMetadata}
use ignited.Module.Loading.{
  Job, Loader, contains, handles, deps_of, post_deps_of, record_handle, fresh_group, spawn,
}
use ignited.Module.Loading.Kept.{In, Holds, handles-record_handle}

-- There is a thread for the module.
abbrev pub Has : String → List Job → Type 0
Has x [] = ⊥
Has x (j ∷ js) = (j.module_name ≡ x) ⊎ Has x js

pub Has-append_left : (x : String) (js ks : List Job) → Has x js → Has x (js ++ ks)
Has-append_left x [] ks h = absurd h
Has-append_left x (j ∷ js) ks (inl e) = inl e
Has-append_left x (j ∷ js) ks (inr h) = inr (Has-append_left x js ks h)

pub Has-append_right : (x : String) (js ks : List Job) → Has x ks → Has x (js ++ ks)
Has-append_right x [] ks h = h
Has-append_right x (j ∷ js) ks h = inr (Has-append_right x js ks h)

-- A handle is kept in an entry.
pub entry_of_Holds :
    (st : Loader) (x : String) (v : ℕ)
    → Holds st x v
    → (us : List ℕ) × (Assoc.get st.inner.loading x ≡ some us)
entry_of_Holds st x v h = elim (Option-cases (Assoc.get st.inner.loading x)) [
  | inr e ↦ e
  | inl vacant ↦ absurd (rw (ap (λ o. unwrap_or o []) vacant) at h)
]

module _ (meta : InitramfsMetadata) where
  -- The modules that are loaded for the group that a thread for the first module waits for: its
  -- dependencies, and those that are loaded after one of them, for the same group.
  pub data Waited (m : String) : String → Type 0 where
    dep : (x : String) → contains (deps_of meta m) x ≡ true → Waited m x
    post : (x y : String) → Waited m y → contains (post_deps_of meta y) x ≡ true → Waited m x

  -- The group `v` is kept and waited for by such modules of `m` only.
  pub record Under (v : ℕ) (m : String) (st : Loader) : Type 0 where
    pub kept_under : (x : String) → Holds st x v → Waited m x
    pub jobs_under : All (λ (k : Job). k.orig_wg ≡ v → Waited m k.module_name) st.jobs

  -- The modules may be loaded for the group.
  abbrev pub Allowed : ℕ → List String → Loader → Type 0
  Allowed w ms st = All (λ (j : Job). j.deps_wg ≡ w → All (Waited j.module_name) ms) st.jobs

  abbrev pub IsUsed : ℕ → Job → Type 0
  IsUsed n j = (j.deps_wg < n) × (j.orig_wg < n)

  -- Every group has been created, every entry has a thread or is one of the names, and each thread
  -- waits for modules that it may have to wait for.
  pub record Fits (names : List String) (st : Loader) : Type 0 where
    pub none_loaded : st.inner.loaded ≡ []
    pub kept_below : (x : String) (v : ℕ) → Holds st x v → v < st.next_wg
    pub jobs_below : All (IsUsed st.next_wg) st.jobs
    pub owned :
        (x : String) (us : List ℕ)
        → Assoc.get st.inner.loading x ≡ some us
        → (contains names x ≡ true) ⊎ Has x st.jobs
    pub under : All (λ (j : Job). Under j.deps_wg j.module_name st) st.jobs

  -- At most a handle is added to one entry, and groups are created.
  pub record Adds (x : String) (w : ℕ) (st st' : Loader) : Type 0 where
    pub same_loaded : st'.inner.loaded ≡ st.inner.loaded
    pub same_jobs : st'.jobs ≡ st.jobs
    pub next_le : st.next_wg ≤ st'.next_wg
    pub kept : (y : String) (v : ℕ) → Holds st' y v → Holds st y v ⊎ ((x ≡ y) × (v ≡ w))
    pub entries :
        (y : String) (us : List ℕ)
        → Assoc.get st'.inner.loading y ≡ some us
        → (x ≡ y) ⊎ ((vs : List ℕ) × (Assoc.get st.inner.loading y ≡ some vs))

  pub Under-Adds :
      {x : String} {w : ℕ} {st st' : Loader} (v : ℕ) (m : String)
      → Adds x w st st'
      → (v ≡ w → Waited m x)
      → Under v m st
      → Under v m st'
  Under-Adds {st' = st'} v m a allowed u = record {
    kept_under = λ y h. elim (a.kept y v h) [
      | inl old ↦ u.kept_under y old
      | inr (e, same) ↦ subst (Waited m) e (allowed same)
    ];
    jobs_under =
        subst (All (λ (k : Job). k.orig_wg ≡ v → Waited m k.module_name)) (sym a.same_jobs)
          u.jobs_under;
  }

  -- Two properties of the same jobs.
  pub both_All :
      {P Q R : Job → Type 0} (js : List Job)
      → ((j : Job) → P j → Q j → R j)
      → All P js
      → All Q js
      → All R js
  both_All [] f p q = tt
  both_All (j ∷ js) f (p, ps) (q, qs) = (f j p q, both_All js f ps qs)

  pub Fits-Adds :
      {x : String} {w : ℕ} {st st' : Loader} (names : List String)
      → Adds x w st st'
      → Fits names st
      → w < st'.next_wg
      → Allowed w (x ∷ []) st
      → (contains names x ≡ true) ⊎ Has x st.jobs
      → Fits names st'
  Fits-Adds {x} {w} {st} {st'} names a i below allowed owner = record {
    none_loaded = a.same_loaded ∙ i.none_loaded;
    kept_below = λ y v h. elim (a.kept y v h) [
      | inl old ↦ let lt = i.kept_below y v old in let le = a.next_le in omega arith
      | inr (e, same) ↦ omega arith
    ];
    jobs_below =
        subst (All (IsUsed st'.next_wg)) (sym a.same_jobs)
          (All-map st.jobs (λ j h. let le = a.next_le in (omega arith, omega arith)) i.jobs_below);
    owned = λ y us h.
        subst (λ js. (contains names y ≡ true) ⊎ Has y js) (sym a.same_jobs)
          (elim (a.entries y us h) [
            | inl e ↦ subst (λ z. (contains names z ≡ true) ⊎ Has z st.jobs) e owner
            | inr (vs, old) ↦ i.owned y vs old
          ]);
    under = subst (All (λ (j : Job). Under j.deps_wg j.module_name st')) (sym a.same_jobs) (
        both_All st.jobs (λ j u ok. Under-Adds j.deps_wg j.module_name a (λ e. (ok e).0) u) i.under
          allowed);
  }
