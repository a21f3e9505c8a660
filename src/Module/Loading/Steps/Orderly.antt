-- ===== src/Module/Loading/Steps/Orderly.antt =====
-- The states that the threads reach when none of them ends early.
use mathlib.Core.Path.{subst}
use ignited.Prelude.{
  All-map, ℕ, ◌<◌, String, true, ◌≡◌, refl, ◌⊎◌, inl, inr, some, List, [], ◌∷◌, ◌++◌, ◌==◌, eq_iff,
  eq_refl, arith, All, Bool-cases, map,
}
use ignited.Config.Runtime.{InitramfsMetadata}
use ignited.Module.Loading.{Job, Loader, contains, fresh_group}
use ignited.Module.Loading.Ranked.{Has, Waited, Under, IsUsed, Fits, both_All}
use ignited.Module.Loading.Ranked.Calls.{Grows}
use ignited.Module.Loading.Ranked.Unlocked.{load_modules_unlocked-IsFitting}
use ignited.Module.Loading.Steps.{System, load_modules}
use ignited.Module.Loading.Steps.Order.{All-without}

abbrev pub names_of : List Job → List String
names_of js = map (λ (j : Job). j.module_name) js

Has-without :
    (x : String) (before : List Job) (j : Job) (after : List Job)
    → Has x (before ++ j ∷ after)
    → (j.module_name ≡ x) ⊎ Has x (before ++ after)
Has-without x [] j after h = h
Has-without x (k ∷ before) j after (inl e) = inr (inl e)
Has-without x (k ∷ before) j after (inr h) = elim (Has-without x before j after h) [
  | inl e ↦ inl e
  | inr rest ↦ inr (inr rest)
]

pub names_without :
    (x : String) (before : List Job) (j : Job) (after : List Job)
    → contains (names_of (before ++ j ∷ after)) x ≡ true
    → (j.module_name ≡ x) ⊎ (contains (names_of (before ++ after)) x ≡ true)
unfolding contains
names_without x [] j after h = elim (Bool-cases (j.module_name == x)) [
  | inl e ↦ inl ((eq_iff j.module_name x).0 e)
  | inr e ↦ inr (rw e at h)
]
names_without x (k ∷ before) j after h = elim (Bool-cases (k.module_name == x)) [
  | inl e ↦ inr (rw e refl)
  | inr e ↦ elim (names_without x before j after (rw e at h)) [
    | inl same ↦ inl same
    | inr rest ↦ inr (rw e rest)
  ]
]

module _ (meta : InitramfsMetadata) where
  -- A thread behind the kernel's answer belongs to those that the group's owner may have to wait for.
  abbrev pub Expected : Job → Job → Type 0
  Expected j k = k.orig_wg ≡ j.deps_wg → Waited meta j.module_name k.module_name

  pub record IsOrderly (s : System) : Type 0 where
    pub fits : Fits meta (names_of s.finishing) s.loader
    pub finishing_below : All (λ (k : Job). k.orig_wg < s.loader.next_wg) s.finishing
    pub expected : All (λ (j : Job). All (Expected j) s.finishing) s.loader.jobs

  fresh-Fits :
      (names : List String) (st : Loader)
      → Fits meta names st
      → Fits meta names (fresh_group meta st)
  fresh-Fits names st i = record {
    none_loaded = i.none_loaded;
    kept_below = λ x v h. let lt = i.kept_below x v h in omega arith;
    jobs_below = All-map st.jobs (λ j h. (omega arith, omega arith)) i.jobs_below;
    owned = i.owned;
    under =
        All-map st.jobs (λ j u. record { kept_under = u.kept_under; jobs_under = u.jobs_under })
          i.under;
  }

  -- The threads behind the kernel's answer are none of the new ones' business.
  pub keeps_Expected :
      {w : ℕ} {ms : List String} {st st' : Loader} (fin : List Job)
      → Grows meta w ms st st'
      → All (λ (k : Job). k.orig_wg < st.next_wg) fin
      → All (λ (j : Job). All (Expected j) fin) st.jobs
      → All (λ (j : Job). All (Expected j) fin) st'.jobs
  keeps_Expected fin g below old =
      g.keeps_jobs (λ j. All (Expected j) fin)
        (λ j new. All-map fin (λ k lt e. absurd (omega arith)) below) old

  pub request-IsOrderly :
      {s : System} (n : ℕ) (ms : List String) (st : Loader)
      → load_modules meta n ms s.loader ≡ some st
      → IsOrderly s
      → IsOrderly (record s { loader = st })
  unfolding load_modules
  request-IsOrderly {s} n ms st h i =
      let asked : Loader = fresh_group meta s.loader in
      let r =
        load_modules_unlocked-IsFitting meta n (names_of s.finishing) ms s.loader.next_wg asked st
          (fresh-Fits (names_of s.finishing) s.loader i.fits) (omega arith)
          (All-map s.loader.jobs (λ j u e. absurd (omega arith)) i.fits.jobs_below) h in
      let le = r.1.next_le in
      let below : All (λ (k : Job). k.orig_wg < asked.next_wg) s.finishing =
        All-map s.finishing (λ k lt. omega arith) i.finishing_below in
      record {
        fits = r.0;
        finishing_below = All-map s.finishing (λ k lt. omega arith) i.finishing_below;
        expected = keeps_Expected s.finishing r.1 below i.expected;
      }

  -- A thread is taken out of the waiting ones.
  without_job-Fits :
      (names : List String) (st : Loader) (j : Job) (before after : List Job)
      → st.jobs ≡ before ++ j ∷ after
      → Fits meta names st
      → Fits meta (j.module_name ∷ names) (record st { jobs = before ++ after })
  unfolding contains
  without_job-Fits names st j before after at i = record {
    none_loaded = i.none_loaded;
    kept_below = i.kept_below;
    jobs_below =
        (All-without (IsUsed meta st.next_wg) before j after
          (subst (All (IsUsed meta st.next_wg)) at i.jobs_below)).1;
    owned = λ x us h. elim (i.owned x us h) [
      | inl there ↦ inl (ground (arith, there))
      | inr job ↦ elim (Has-without x before j after (subst (Has x) at job)) [
        | inl e ↦ inl (rw (e, eq_refl x))
        | inr rest ↦ inr rest
      ]
    ];
    under =
        All-map (before ++ after)
          (λ k u. record {
            kept_under = u.kept_under;
            jobs_under =
                (All-without
                  (λ (l : Job). l.orig_wg ≡ k.deps_wg → Waited meta k.module_name l.module_name)
                  before j after
                  (subst
                    (All (λ (l : Job).
                      l.orig_wg ≡ k.deps_wg → Waited meta k.module_name l.module_name))
                    at u.jobs_under)).1;
          })
          (All-without (λ (k : Job). Under meta k.deps_wg k.module_name st) before j after
            (subst (All (λ (k : Job). Under meta k.deps_wg k.module_name st)) at i.under)).1;
  }

  pub take-IsOrderly :
      {s : System} (j : Job) (before after : List Job)
      → s.loader.jobs ≡ before ++ j ∷ after
      → IsOrderly s
      → IsOrderly (record {
        loader = record s.loader { jobs = before ++ after };
        finishing = j ∷ s.finishing;
        inited = j.module_name ∷ s.inited;
      })
  take-IsOrderly {s} j before after at i =
      let (used, others) =
        All-without (IsUsed meta s.loader.next_wg) before j after
          (subst (All (IsUsed meta s.loader.next_wg)) at i.fits.jobs_below) in
      let (mine, rest) =
        All-without (λ (k : Job). All (Expected k) s.finishing) before j after
          (subst (All (λ (k : Job). All (Expected k) s.finishing)) at i.expected) in
      let (under_j, unders) =
        All-without (λ (k : Job). Under meta k.deps_wg k.module_name s.loader) before j after
          (subst (All (λ (k : Job). Under meta k.deps_wg k.module_name s.loader)) at
            i.fits.under) in
      record {
        fits = without_job-Fits (names_of s.finishing) s.loader j before after at i.fits;
        finishing_below = (used.1, i.finishing_below);
        expected =
            both_All meta (before ++ after)
              (λ k old u. (
                (All-without (Expected k) before j after
                    (subst (All (Expected k)) at u.jobs_under)).0,
                old,
              ))
              rest unders;
      }
