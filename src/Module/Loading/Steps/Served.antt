-- ===== src/Module/Loading/Steps/Served.antt =====
-- What a call of `load_modules` in src/module.rs comes to in the end.
use mathlib.Core.Path.{subst}
use ignited.Prelude.{
  All-map, ℕ, suc, ◌+◌, ◌≤◌, String, true, ◌≡◌, refl, sym, ◌⊎◌, inl, inr, some, List, All,
}
use ignited.Config.Runtime.{InitramfsMetadata}
use ignited.Module.Loading.{Job, Loader, contains, deps_of, post_deps_of, fresh_group}
use ignited.Module.Loading.Cost.{total}
use ignited.Module.Loading.Enough.{IsClosed}
use ignited.Module.Loading.Effect.{Settled, Settled-Extends, Loads, load_modules_unlocked-Loads}
use ignited.Module.Loading.Steps.{
  System, initial, load_modules, GoesOn, Step, request, take, finish, fail, give_up, Reach, here,
  next, SmoothReach, here_smooth, next_smooth,
}
use ignited.Module.Loading.Steps.Order.{
  All-without, IsWaiting, Settled-take, Settled-finish, Settled-of_free, finish-Loads,
  Step-IsWaiting, Reach-IsWaiting,
}
use ignited.Module.Loading.Steps.Smooth.{SmoothReach-IsOrderly}
use ignited.Module.Loading.Steps.Progress.{some_thread-GoesOn}
use ignited.Module.Loading.Steps.Ending.{
  Run, over, onwards, IsQuiet, left_of, Run-SmoothReach, idle-IsQuiet, Waited-less, Run_bounded,
}

module _ (meta : InitramfsMetadata) where
  SmoothReach-Reach : {s t : System} → SmoothReach meta s t → Reach meta s t
  SmoothReach-Reach here_smooth = here
  SmoothReach-Reach (next_smooth r step smooth) = next (SmoothReach-Reach r) step

  abbrev IsAwaited : ℕ → String → System → Type 0
  IsAwaited w x s = Settled meta s.inited s.loader w x

  request-Loads :
      {s : System} (n : ℕ) (ms : List String) (st : Loader)
      → IsWaiting meta s
      → load_modules meta n ms s.loader ≡ some st
      → Loads meta s.inited ms s.loader.next_wg (fresh_group meta s.loader) st
  unfolding load_modules
  request-Loads {s} n ms st i h =
      load_modules_unlocked-Loads meta s.inited n ms s.loader.next_wg (fresh_group meta s.loader) st
        i.none_loaded i.all_wait h

  -- A module that is built in, taken, or kept for a group stays one of these.
  Step-IsAwaited :
      {s t : System} (w : ℕ) (x : String)
      → Step meta s t
      → IsWaiting meta s
      → IsAwaited w x s
      → IsAwaited w x t
  Step-IsAwaited {s} w x (request n ms st h e) i a =
      let extends = (request-Loads n ms st i h).extends in
      let same : Settled meta s.inited (fresh_group meta s.loader) w x = a in
      subst (IsAwaited w x) (sym e) (Settled-Extends meta s.inited w x extends same)
  Step-IsAwaited {s} w x (take j before after at free e) i a =
      subst (IsAwaited w x) (sym e) (Settled-take meta s.inited s.loader j.module_name w x a)
  Step-IsAwaited {s} w x (finish n j before after st at h e) i a =
      let taken =
        (All-without (λ (k : Job). contains s.inited k.module_name ≡ true) before j after
          (subst (All (λ (k : Job). contains s.inited k.module_name ≡ true)) at i.all_taken)).0 in
      let extends = (finish-Loads meta n j before after st i at h).extends in
      subst (IsAwaited w x) (sym e) (
        Settled-Extends meta s.inited w x extends
          (Settled-finish meta s.inited s.loader j.module_name w x taken a))
  Step-IsAwaited w x (fail j before after at e) i a = subst (IsAwaited w x) (sym e) a
  Step-IsAwaited w x (give_up j before after at e) i a = subst (IsAwaited w x) (sym e) a

  Run-IsAwaited :
      {s t : System} {n : ℕ} (w : ℕ) (x : String)
      → Run meta n s t
      → IsWaiting meta s
      → IsAwaited w x s
      → IsAwaited w x t
  Run-IsAwaited w x over i a = a
  Run-IsAwaited w x (onwards step g run) i a =
      Run-IsAwaited w x run (Step-IsWaiting meta step i) (Step-IsAwaited w x step i a)

  abbrev pub Taken : System → String → Type 0
  Taken s x = (contains meta.module_builtin x ≡ true) ⊎ (contains s.inited x ≡ true)

  -- When the threads have ended after a request, its modules have been taken.
  quiet-Taken :
      {s t : System} {k : ℕ} (n : ℕ) (ms : List String) (st : Loader)
      → Reach meta initial s
      → load_modules meta n ms s.loader ≡ some st
      → Run meta k (record s { loader = st }) t
      → IsQuiet t
      → All (Taken t) ms
  quiet-Taken {s} {t} n ms st r h run quiet =
      let i = Reach-IsWaiting meta r in
      let asked : IsWaiting meta (record s { loader = st }) =
        Step-IsWaiting meta (request n ms st h refl) i in
      let w = s.loader.next_wg in
      All-map ms
        (λ x covered.
          let start : Settled meta s.inited st w x = elim covered [
            | inl b ↦ inl b
            | inr held ↦ inr (inr held)
          ] in
          Settled-of_free meta t.inited t.loader w x ((quiet.all_free w).not_kept x)
            (Run-IsAwaited w x run asked start))
        (request-Loads n ms st i h).covered

  -- Let a module's cost cover its thread's two steps and the costs of its dependencies and of what is
  -- to be loaded after it, and let a finite list hold all modules to be loaded after another and the
  -- dependencies of its members. Take a request in a state that is reached without a thread ending
  -- early, and any steps that the threads take behind it, in whatever order, while the kernel takes
  -- every module, no thread ends early, and nothing else is requested. They are no more than the costs
  -- say; and where they have come, either some thread can go on, or none is left, every group may be
  -- waited for, and each module of the request is built in or has been taken by the kernel.
  pub request-Taken :
      (reachable : List String) (cost : String → ℕ) {s t : System} {k : ℕ} (n : ℕ)
      (ms : List String) (st : Loader)
      → IsClosed meta reachable
      → ((m : String) → All (λ x. contains reachable x ≡ true) (post_deps_of meta m))
      → ((m : String)
          → suc (suc (total meta cost (deps_of meta m) + total meta cost (post_deps_of meta m)))
            ≤ cost m)
      → SmoothReach meta initial s
      → load_modules meta n ms s.loader ≡ some st
      → Run meta k (record s { loader = st }) t
      → (k ≤ left_of meta cost (record s { loader = st }))
        × (((u : System) × (step : Step meta t u) × GoesOn step) ⊎ (IsQuiet t × All (Taken t) ms))
  request-Taken reachable cost {s} {t} n ms st closed posts covers r h run =
      let asked = next_smooth r (request n ms st h refl) (λ e. e) in
      let come = Run-SmoothReach meta asked run in
      (
        Run_bounded meta cost covers asked run,
        elim (some_thread-GoesOn meta reachable cost closed posts
            (λ m x. Waited-less meta cost covers) come) [
              | inr more ↦ inl more
              | inl (idle, done) ↦
                  let quiet = idle-IsQuiet meta (SmoothReach-IsOrderly meta come) idle done in
                  inr (quiet, quiet-Taken n ms st (SmoothReach-Reach r) h run quiet)
            ],
      )
