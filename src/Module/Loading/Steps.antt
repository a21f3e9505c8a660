-- ===== src/Module/Loading/Steps.antt =====
-- The threads of module loading as a step relation: `load_modules` and `load_module` of
-- src/module.rs. The lock makes each of them one step; a group may be waited for exactly when no
-- clone of it is kept anywhere, which is what `WaitGroup::wait` documents. Whether the kernel takes
-- a module is up to the environment, and so is whether a thread behind the kernel finds the lock
-- poisoned. What a panic under the lock leaves behind, when a thread cannot be spawned, is left out.
pub mod Order
pub mod Again
pub mod Stuck
pub mod SelfWait
pub mod Orderly
pub mod Smooth
pub mod Progress
pub mod Ending
pub mod Served
pub mod Sorted
mod Tests
mod Circular
use ignited.Prelude.{
  ℕ, String, Bool, true, false, ◌≡◌, ◌≢◌, Option, none, some, List, [], ◌∷◌, ◌++◌, All,
}
use ignited.Prelude.Assoc
use ignited.Config.Runtime.{InitramfsMetadata}
use ignited.Module.Loading.{
  ModLoadingInner, Job, Loader, fresh_group, post_deps_of, load_modules_unlocked,
}
use ignited.Module.Loading.Kept.{Holds}

-- The bookkeeping with the threads that have not reached the kernel; the threads whose module the
-- kernel has taken and that wait for the lock; and the modules taken, the last first.
pub record System : Type 0 where
  pub loader : Loader
  pub finishing : List Job
  pub inited : List String

-- `ModLoading::new`
abbrev pub initial : System
initial = record {
  loader = record { inner = record { loaded = []; loading = [] }; jobs = []; next_wg = 0 };
  finishing = [];
  inited = [];
}

module _ (meta : InitramfsMetadata) where
  -- `load_modules`: a new group, and the call under the lock.
  unfoldable pub load_modules : ℕ → List String → Loader → Option Loader
  load_modules n ms st = load_modules_unlocked meta n ms st.next_wg (fresh_group meta st)

  -- `load_module` behind `finit`, under the lock: the entry of the module goes, with the clones in
  -- it, and the modules that come after it are loaded for the same group.
  unfoldable pub load_module_rest : ℕ → Job → Loader → Option Loader
  load_module_rest n j st =
      load_modules_unlocked meta n (post_deps_of meta j.module_name) j.orig_wg (record st {
        inner = record st.inner { loading = Assoc.remove st.inner.loading j.module_name };
      })

-- No clone of a group is left: neither in the bookkeeping nor with a thread.
pub record IsFree (s : System) (others : List Job) (wg : ℕ) : Type 0 where
  pub not_kept : (m : String) → ¬ Holds s.loader m wg
  pub not_waiting : All (λ (k : Job). k.orig_wg ≢ wg) others
  pub not_finishing : All (λ (k : Job). k.orig_wg ≢ wg) s.finishing

pub data Step (meta : InitramfsMetadata) (s t : System) : Type 0 where
  -- Some thread of the program asks for modules.
  request :
      (n : ℕ) (ms : List String) (st : Loader)
      → load_modules meta n ms s.loader ≡ some st
      → t ≡ record s { loader = st }
      → Step meta s t
  -- A thread whose dependencies are there has its module taken by the kernel.
  take :
      (j : Job) (before after : List Job)
      → s.loader.jobs ≡ before ++ j ∷ after
      → IsFree s (before ++ after) j.deps_wg
      → t ≡ record {
        loader = record s.loader { jobs = before ++ after };
        finishing = j ∷ s.finishing;
        inited = j.module_name ∷ s.inited;
      }
      → Step meta s t
  -- It gets the lock, and ends.
  finish :
      (n : ℕ) (j : Job) (before after : List Job) (st : Loader)
      → s.finishing ≡ before ++ j ∷ after
      → load_module_rest meta n j s.loader ≡ some st
      → t ≡ record { loader = st; finishing = before ++ after; inited = s.inited }
      → Step meta s t
  -- The thread ends early: it has no console, or the kernel or the file system refuses the module.
  fail :
      (j : Job) (before after : List Job)
      → s.loader.jobs ≡ before ++ j ∷ after
      → t ≡ record s { loader = record s.loader { jobs = before ++ after } }
      → Step meta s t
  -- A thread behind the kernel's answer ends early: the lock is poisoned.
  give_up :
      (j : Job) (before after : List Job)
      → s.finishing ≡ before ++ j ∷ after
      → t ≡ record s { finishing = before ++ after }
      → Step meta s t

pub data Reach (meta : InitramfsMetadata) (s : System) : System → Type 0 where
  here : Reach meta s s
  next : {t t' : System} → Reach meta s t → Step meta t t' → Reach meta s t'

-- A thread ends early.
abbrev pub EndsEarly : {meta : InitramfsMetadata} {s t : System} → Step meta s t → Type 0
EndsEarly (request n ms st h e) = ⊥
EndsEarly (take j before after at free e) = ⊥
EndsEarly (finish n j before after st at h e) = ⊥
EndsEarly (fail j before after at e) = Unit
EndsEarly (give_up j before after at e) = Unit

-- A thread that was there goes on.
abbrev pub GoesOn : {meta : InitramfsMetadata} {s t : System} → Step meta s t → Type 0
GoesOn (request n ms st h e) = ⊥
GoesOn (take j before after at free e) = Unit
GoesOn (finish n j before after st at h e) = Unit
GoesOn (fail j before after at e) = ⊥
GoesOn (give_up j before after at e) = ⊥

-- The states that are reached when no thread ends early.
pub data SmoothReach (meta : InitramfsMetadata) (s : System) : System → Type 0 where
  here_smooth : SmoothReach meta s s
  next_smooth :
      {t t' : System}
      → SmoothReach meta s t
      → (step : Step meta t t') → ¬ EndsEarly step
      → SmoothReach meta s t'
