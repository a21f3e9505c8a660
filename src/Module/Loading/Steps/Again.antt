-- ===== src/Module/Loading/Steps/Again.antt =====
-- A module whose loading is over, asked for again: `loaded` of `ModLoadingInner` is never filled.
use mathlib.Core.Option.{some-injective}
use ignited.Prelude.{
  ℕ, zero, suc, String, false, ◌≡◌, ap, sym, ◌∙◌, inl, inr, none, some, List, [], ◌∷◌, ◌++◌, arith,
}
use ignited.Prelude.Assoc
use ignited.Config.Runtime.{InitramfsMetadata}
use ignited.Module.Loading.Cases.{load_one-cases, bind_loader-eq-some}
use ignited.Module.Loading.{
  Job, Loader, contains, fresh_group, load_one, load_each, load_modules_unlocked,
}
use ignited.Module.Loading.Steps.{System, initial, load_modules, Reach}
use ignited.Module.Loading.Steps.Order.{Reach-IsWaiting}

module _ (meta : InitramfsMetadata) where
  -- In every state that the threads can reach, a call for a module that is not built in and has no
  -- entry starts one more thread for it, also if the kernel has taken it before.
  pub load_modules_again :
      {s : System} (n : ℕ) (m : String) (st : Loader)
      → Reach meta initial s
      → contains meta.module_builtin m ≡ false
      → Assoc.get s.loader.inner.loading m ≡ none
      → load_modules meta n (m ∷ []) s.loader ≡ some st
      → (others : List Job) × (d : ℕ) × (st.jobs
          ≡ others ++ record { module_name = m; deps_wg = d; orig_wg = s.loader.next_wg } ∷ [])
  unfolding load_modules load_modules_unlocked load_each
  load_modules_again {s} zero m st r other vacant h = cc
  load_modules_again {s} (suc n) m st r other vacant h =
      let asked : Loader = fresh_group meta s.loader in
      let load_deps = load_modules_unlocked meta n in
      let (st1, one, e) =
        bind_loader-eq-some meta (load_one meta load_deps m s.loader.next_wg asked) some h in
      elim (load_one-cases meta load_deps m s.loader.next_wg asked st1
        (Reach-IsWaiting meta r).none_loaded one) [
          | inl (builtin, same) ↦ absurd (ground arith)
          | inr (inl (wgs, there, same)) ↦ absurd (ground arith)
          | inr (inr (st2, none_there, deps, spawned)) ↦ (
            st2.jobs,
            asked.next_wg,
            sym (ap (λ (l : Loader). l.jobs) (spawned ∙ some-injective st1 st e)),
          )
        ]
