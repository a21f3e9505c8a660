-- ===== src/Module/Loading/Steps/Ending.antt =====
-- Runs of the threads of src/module.rs that are left to themselves, and how long they are.
use mathlib.Core.Path.{subst}
use ignited.Prelude.{
  ℕ, suc, ◌+◌, ◌≤◌, ◌<◌, String, true, ◌≡◌, ◌≢◌, ap, sym, inl, inr, List, [], ◌∷◌, ◌==◌, eq_iff,
  Bool-cases, arith, All,
}
use ignited.Config.Runtime.{InitramfsMetadata}
use ignited.Module.Loading.{Job, contains, deps_of, post_deps_of}
use ignited.Module.Loading.Cost.{
  sum, sum-without, total, left_behind, left_before, Covers, load_modules_unlocked-Pays,
}
use ignited.Module.Loading.Ranked.{Waited, dep, post, entry_of_Holds}
use ignited.Module.Loading.Steps.{
  System, initial, load_module_rest, IsFree, Step, request, take, finish, fail, give_up, GoesOn,
  EndsEarly, SmoothReach, next_smooth,
}
use ignited.Module.Loading.Steps.Order.{without_entry}
use ignited.Module.Loading.Steps.Orderly.{IsOrderly}
use ignited.Module.Loading.Steps.Smooth.{Step-IsOrderly, SmoothReach-IsOrderly}

-- A number of steps of the threads that were there, and of those that they start.
pub data Run (meta : InitramfsMetadata) : ℕ → System → System → Type 0 where
  over : {s : System} → Run meta 0 s s
  onwards :
      {n : ℕ} {s t u : System} (step : Step meta s t)
      → GoesOn step
      → Run meta n t u
      → Run meta (suc n) s u

-- No thread is left, and every group may be waited for.
pub record IsQuiet (s : System) : Type 0 where
  pub no_jobs : s.loader.jobs ≡ []
  pub no_finishing : s.finishing ≡ []
  pub all_free : (w : ℕ) → IsFree s [] w

module _ (meta : InitramfsMetadata) where
  pub GoesOn-not_early : {s t : System} (step : Step meta s t) → GoesOn step → ¬ EndsEarly step
  GoesOn-not_early (request n ms st h e) g early = g
  GoesOn-not_early (take j before after at free e) g early = early
  GoesOn-not_early (finish n j before after st at h e) g early = early
  GoesOn-not_early (fail j before after at e) g early = g
  GoesOn-not_early (give_up j before after at e) g early = g

  pub Run-SmoothReach :
      {s t : System} {n : ℕ}
      → SmoothReach meta initial s
      → Run meta n s t
      → SmoothReach meta initial t
  Run-SmoothReach r over = r
  Run-SmoothReach r (onwards step g run) =
      Run-SmoothReach (next_smooth r step (GoesOn-not_early step g)) run

  -- Every entry belongs to a thread.
  pub idle-IsQuiet :
      {s : System} → IsOrderly meta s → s.loader.jobs ≡ [] → s.finishing ≡ [] → IsQuiet s
  unfolding contains
  idle-IsQuiet {s} i idle done = record {
    no_jobs = idle;
    no_finishing = done;
    all_free = λ w. record {
      not_kept = λ x h.
          let (us, there) = entry_of_Holds s.loader x w h in
          elim (i.fits.owned x us there) [
            | inl finishing ↦ absurd (ground (arith, rw done at finishing))
            | inr job ↦ absurd (rw idle at job)
          ];
      not_waiting = tt;
      not_finishing = subst (All (λ (k : Job). k.orig_wg ≢ w)) (sym done) tt;
    };
  }

  module _ (cost : String → ℕ) where
    -- The steps that may be left at most.
    abbrev pub left_of : System → ℕ
    left_of s = sum (left_before meta cost) s.loader.jobs + sum (left_behind meta cost) s.finishing

    GoesOn-less :
        {s t : System} (step : Step meta s t)
        → ((m : String) → Covers meta cost m)
        → GoesOn step
        → IsOrderly meta s
        → left_of t < left_of s
    unfolding load_module_rest
    GoesOn-less (request n ms st h e) covers g i = absurd g
    GoesOn-less {s} (take j before after at free e) covers g i =
        let jobs = ap (sum (left_before meta cost)) at in
        subst (λ u. left_of u < left_of s) (sym e)
          (omega (arith, jobs, sum-without (left_before meta cost) before j after))
    GoesOn-less {s} (finish n j before after st at h e) covers g i =
        let (still, le) =
          load_modules_unlocked-Pays meta cost covers n (post_deps_of meta j.module_name) j.orig_wg
            (without_entry s.loader j.module_name) st i.fits.none_loaded h in
        let jobs = ap (sum (left_behind meta cost)) at in
        subst (λ u. left_of u < left_of s) (sym e)
          (omega (arith, jobs, le, sum-without (left_behind meta cost) before j after))
    GoesOn-less (fail j before after at e) covers g i = absurd g
    GoesOn-less (give_up j before after at e) covers g i = absurd g

    Run-le :
        {s t : System} {n : ℕ}
        → ((m : String) → Covers meta cost m)
        → IsOrderly meta s
        → Run meta n s t
        → n ≤ left_of s
    Run-le covers i over = omega arith
    Run-le covers i (onwards step g run) =
        let less = GoesOn-less step covers g i in
        let le = Run-le covers (Step-IsOrderly meta step (GoesOn-not_early step g) i) run in
        omega arith

    total_member :
        (ms : List String) (x : String) → contains ms x ≡ true → cost x ≤ total meta cost ms
    unfolding contains
    total_member [] x h = cc
    total_member (m ∷ ms) x h = elim (Bool-cases (m == x)) [
      | inl e ↦ let same = ap cost ((eq_iff m x).0 e) in omega arith
      | inr e ↦ let le = total_member ms x (rw e at h) in omega arith
    ]

    -- The costs rank the modules.
    pub Waited-less :
        {m x : String} → ((m : String) → Covers meta cost m) → Waited meta m x → cost x < cost m
    Waited-less {m} covers (dep x listed) =
        let le = total_member (deps_of meta m) x listed in let c = covers m in omega arith
    Waited-less {m} covers (post x y w listed) =
        let le = total_member (post_deps_of meta y) x listed in
        let c = covers y in let lt = Waited-less covers w in omega arith

-- Let a module's cost cover its thread's two steps and the costs of its dependencies and of what is to
-- be loaded after it, as it can where these lists have no cycle. Then in every state that is reached
-- without a thread ending early the threads can take no more steps, in whatever order, than the costs
-- say: two for each thread before the kernel, one for each behind it, and the costs of what is to be
-- loaded afterwards.
pub Run_bounded :
    (meta : InitramfsMetadata) (cost : String → ℕ) {s t : System} {n : ℕ}
    → ((m : String)
        → suc (suc (total meta cost (deps_of meta m) + total meta cost (post_deps_of meta m)))
          ≤ cost m)
    → SmoothReach meta initial s
    → Run meta n s t
    → n ≤ left_of meta cost s
Run_bounded meta cost covers r run = Run-le meta cost covers (SmoothReach-IsOrderly meta r) run
