-- ===== src/Module/Loading/Steps/Progress.antt =====
-- Which of the threads of `load_module` in src/module.rs can go on.
use mathlib.Core.Path.{subst}
use ignited.Prelude.{
  All-map, ℕ, suc, ◌≤◌, ◌<◌, String, true, ◌≡◌, ◌≢◌, refl, ap, sym, ◌⊎◌, inl, inr, some, List, [],
  ◌∷◌, ◌++◌, arith, All, List-cases, Bool-cases, leb,
}
use ignited.Config.Runtime.{InitramfsMetadata}
use ignited.Module.Loading.{Job, Loader, contains, post_deps_of}
use ignited.Module.Loading.Enough.{missing, IsClosed, load_modules_unlocked_returns}
use ignited.Module.Loading.Ranked.{Has, Waited, Under, both_All, entry_of_Holds}
use ignited.Module.Loading.Steps.{
  System, initial, load_module_rest, IsFree, Step, take, finish, GoesOn, SmoothReach,
}
use ignited.Module.Loading.Steps.Order.{All-without, without_entry}
use ignited.Module.Loading.Steps.Orderly.{IsOrderly}
use ignited.Module.Loading.Steps.Smooth.{SmoothReach-IsOrderly}

module _ (rank : String → ℕ) where
  abbrev Above : ℕ → Job → Type 0
  Above r j = r ≤ rank j.module_name

  record Least (js : List Job) : Type 0 where
    job : Job
    before : List Job
    after : List Job
    split : js ≡ before ++ job ∷ after
    above : All (Above (rank job.module_name)) js

  -- Of some threads one has the least rank.
  least : (j : Job) (js : List Job) → Least (j ∷ js)
  least j [] = record { job = j; before = []; after = []; split = refl; above = (omega arith, tt) }
  least j (k ∷ js) =
      let l = least k js in
      elim (Bool-cases (leb (rank j.module_name) (rank l.job.module_name))) [
        | inl e ↦
            let le : rank j.module_name ≤ rank l.job.module_name = ground (arith, e) in
            record {
              job = j;
              before = [];
              after = k ∷ js;
              split = refl;
              above = (omega arith, All-map (k ∷ js) (λ i h. omega arith) l.above);
            }
        | inr e ↦
            let lt : rank l.job.module_name < rank j.module_name = ground (arith, e) in
            record {
              job = l.job;
              before = j ∷ l.before;
              after = l.after;
              split = ap (λ is. j ∷ is) l.split;
              above = (omega arith, l.above);
            }
      ]

  Above-Has : (r : ℕ) (x : String) (js : List Job) → All (Above r) js → Has x js → r ≤ rank x
  Above-Has r x [] all h = absurd h
  Above-Has r x (j ∷ js) (le, all) (inl e) = subst (λ y. r ≤ rank y) e le
  Above-Has r x (j ∷ js) (le, all) (inr h) = Above-Has r x js all h

  -- The group of a thread with the least rank is kept nowhere.
  Least-IsFree :
      (meta : InitramfsMetadata) {s : System}
      → ((m x : String) → Waited meta m x → rank x < rank m)
      → IsOrderly meta s
      → s.finishing ≡ []
      → (l : Least s.loader.jobs) → IsFree s (l.before ++ l.after) l.job.deps_wg
  unfolding contains
  Least-IsFree meta {s} lower i done l =
      let (mine, rest) =
        All-without (λ (k : Job). Under meta k.deps_wg k.module_name s.loader) l.before l.job
          l.after
          (subst (All (λ (k : Job). Under meta k.deps_wg k.module_name s.loader)) l.split
            i.fits.under) in
      let (own, others) =
        All-without (Above (rank l.job.module_name)) l.before l.job l.after
          (subst (All (Above (rank l.job.module_name))) l.split l.above) in
      let waits : Job → Type 0 =
        λ k. k.orig_wg ≡ l.job.deps_wg → Waited meta l.job.module_name k.module_name in
      let (self, waiting) =
        All-without waits l.before l.job l.after (subst (All waits) l.split mine.jobs_under) in
      record {
        not_kept = λ x h.
            let (us, there) = entry_of_Holds s.loader x l.job.deps_wg h in
            let lt = lower l.job.module_name x (mine.kept_under x h) in
            elim (i.fits.owned x us there) [
              | inl finishing ↦ absurd (ground (arith, rw done at finishing))
              | inr job ↦
                  let le = Above-Has (rank l.job.module_name) x s.loader.jobs l.above job in
                  absurd (omega arith)
            ];
        not_waiting =
            both_All meta (l.before ++ l.after)
              (λ k le w e.
                let lt = lower l.job.module_name k.module_name (w e) in absurd (omega arith))
              others waiting;
        not_finishing = subst (All (λ (k : Job). k.orig_wg ≢ l.job.deps_wg)) (sym done) tt;
      }

module _ (meta : InitramfsMetadata) (reachable : List String) where
  -- What a thread does under the lock returns.
  rest_returns :
      (j : Job) (st : Loader)
      → IsClosed meta reachable
      → ((m : String) → All (λ x. contains reachable x ≡ true) (post_deps_of meta m))
      → (n : ℕ) × ((st' : Loader) × (load_module_rest meta n j st ≡ some st'))
  unfolding load_module_rest
  rest_returns j st closed posts =
      let cleared = without_entry st j.module_name in
      let fuel = suc (missing cleared.inner.loading reachable) in
      let (st', e, same) =
        load_modules_unlocked_returns meta reachable fuel (post_deps_of meta j.module_name)
          j.orig_wg cleared closed (posts j.module_name) (omega arith) in
      (fuel, (st', e))

-- Let the modules be ranked so that a module is above all those that are loaded for the group its
-- thread waits for: its dependencies, and those to be loaded after one of them. Let a finite list hold
-- all modules to be loaded after another, and the dependencies of its members. Then in every state
-- that is reached without a thread ending early either no thread is left, or some thread can go on:
-- the threads never wait for each other in a circle.
pub some_thread-GoesOn :
    (meta : InitramfsMetadata) (reachable : List String) (rank : String → ℕ) {s : System}
    → IsClosed meta reachable
    → ((m : String) → All (λ x. contains reachable x ≡ true) (post_deps_of meta m))
    → ((m x : String) → Waited meta m x → rank x < rank m)
    → SmoothReach meta initial s
    → ((s.loader.jobs ≡ []) × (s.finishing ≡ []))
      ⊎ ((t : System) × (step : Step meta s t) × GoesOn step)
some_thread-GoesOn meta reachable rank {s} closed posts lower r = elim (List-cases s.finishing) [
  | inr (j, js, e) ↦
      let (n, (st, loads)) = rest_returns meta reachable j s.loader closed posts in
      inr (_, finish n j [] js st e loads refl, tt)
  | inl done ↦ elim (List-cases s.loader.jobs) [
    | inl idle ↦ inl (idle, done)
    | inr (j, js, e) ↦
        let l = subst (Least rank) (sym e) (least rank j js) in
        inr (
          _,
          take l.job l.before l.after l.split
              (Least-IsFree rank meta lower (SmoothReach-IsOrderly meta r) done l) refl,
          tt,
        )
  ]
]
