-- ===== src/Module/Loading.antt =====
-- `ModLoading` of src/module.rs: the bookkeeping of module loading. A `WaitGroup` of the `crossbeam`
-- crate is a number, its identity; a clone of it is a place where that number is kept. A thread that
-- was spawned for a module is a job.
pub mod Fuel
pub mod Enough
pub mod Cases
pub mod Kept
pub mod Effect
pub mod Ranked
pub mod Cost
pub mod Steps
use ignited.Prelude.{
  ℕ, zero, suc, String, Bool, true, false, ◌||◌, Option, none, some, List, [], ◌∷◌, ◌++◌, ◌==◌,
  unwrap_or, if◌then◌else◌,
}
use ignited.Prelude.Assoc
use ignited.Prelude.Assoc.{Map}
use ignited.Prelude.Text.{is_some}
use ignited.Config.Runtime.{InitramfsMetadata}

-- `ModLoadingInner`
pub record ModLoadingInner : Type 0 where
  pub loaded : Map (Unit {0})
  pub loading : Map (List ℕ)

-- A thread in `load_module`: its module, the group that it waits for, and the group that waits for it.
pub record Job : Type 0 where
  pub module_name : String
  pub deps_wg : ℕ
  pub orig_wg : ℕ

-- What a call of `load_modules_unlocked` works on: the bookkeeping, the threads spawned so far, and
-- the first number that is no group yet.
pub record Loader : Type 0 where
  pub inner : ModLoadingInner
  pub jobs : List Job
  pub next_wg : ℕ

-- `[String]::contains`
unfoldable pub contains : List String → String → Bool
contains [] m = false
contains (x ∷ xs) m = x == m || contains xs m

-- The handles that are kept for a module.
abbrev pub handles : Loader → String → List ℕ
handles st m = unwrap_or (Assoc.get st.inner.loading m) []

module _ (meta : InitramfsMetadata) where
  -- `loaded.contains_key(module) || module_builtin().contains(module)`
  abbrev pub is_skipped : Loader → String → Bool
  is_skipped st m = is_some (Assoc.get st.inner.loaded m) || contains meta.module_builtin m

  abbrev pub deps_of : String → List String
  deps_of m = unwrap_or (Assoc.get meta.module_deps m) []

  abbrev pub post_deps_of : String → List String
  post_deps_of m = unwrap_or (Assoc.get meta.module_post_deps m) []

  -- The entry of a module is set: a vacant one to the handle, an occupied one with the handle behind.
  abbrev pub record_handle : Loader → String → List ℕ → Loader
  record_handle st m wgs = record st {
    inner = record st.inner { loading = Assoc.put st.inner.loading m wgs };
  }

  abbrev pub fresh_group : Loader → Loader
  fresh_group st = record st { next_wg = suc st.next_wg }

  -- `thread::spawn`
  abbrev pub spawn : String → ℕ → ℕ → Loader → Loader
  spawn m deps_wg wg st = record st {
    jobs = st.jobs ++ record { module_name = m; deps_wg = deps_wg; orig_wg = wg } ∷ [];
  }

  abbrev pub then_spawn : String → ℕ → ℕ → Option Loader → Option Loader
  then_spawn m deps_wg wg none = none
  then_spawn m deps_wg wg (some st) = some (spawn m deps_wg wg st)

  -- One module: what the function does for its dependencies is a parameter.
  unfoldable pub load_one :
      (List String → ℕ → Loader → Option Loader) → String → ℕ → Loader → Option Loader
  unfolding contains
  load_one load_deps m wg st =
      if is_skipped st m then some st else elim (Assoc.get st.inner.loading m) [
        | none ↦
            then_spawn m st.next_wg wg
              (load_deps (deps_of m) st.next_wg (fresh_group (record_handle st m (wg ∷ []))))
        | some wgs ↦ some (record_handle st m (wgs ++ wg ∷ []))
      ]

  abbrev pub bind_loader : Option Loader → (Loader → Option Loader) → Option Loader
  bind_loader none k = none
  bind_loader (some st) k = k st

  unfoldable pub load_each :
      (List String → ℕ → Loader → Option Loader) → List String → ℕ → Loader → Option Loader
  unfolding load_one
  load_each load_deps [] wg st = some st
  load_each load_deps (m ∷ ms) wg st =
      bind_loader (load_one load_deps m wg st) (λ st'. load_each load_deps ms wg st')

  -- `load_modules_unlocked`, with fuel for the depth of the dependencies.
  unfoldable pub load_modules_unlocked : ℕ → List String → ℕ → Loader → Option Loader
  unfolding load_each
  load_modules_unlocked zero ms wg st = none
  load_modules_unlocked (suc n) ms wg st = load_each (load_modules_unlocked n) ms wg st
