-- ===== src/Module/Loading/Cases.antt =====
-- The three ways through one round of `load_modules_unlocked`.
use mathlib.Core.Option.{some-injective}
use ignited.Prelude.{
  ℕ, String, true, ◌||◌, ◌≡◌, refl, ap, ◌∙◌, ◌⊎◌, inl, inr, Option, none, some, List, [], ◌∷◌, ◌++◌,
  Option-cases, Bool-cases,
}
use ignited.Prelude.Assoc
use ignited.Prelude.Text.{is_some}
use ignited.Config.Runtime.{InitramfsMetadata}
use ignited.Module.Loading.{
  Loader, contains, is_skipped, deps_of, record_handle, fresh_group, spawn, then_spawn, load_one,
  bind_loader,
}

module _ (meta : InitramfsMetadata) where
  pub bind_loader-eq-some :
      (o : Option Loader) (k : Loader → Option Loader) {st : Loader}
      → bind_loader meta o k ≡ some st
      → (st1 : Loader) × (o ≡ some st1) × (k st1 ≡ some st)
  bind_loader-eq-some none k h = cc
  bind_loader-eq-some (some st1) k h = (st1, refl, h)

  then_spawn-eq-some :
      (m : String) (d w : ℕ) (o : Option Loader) {st : Loader}
      → then_spawn meta m d w o ≡ some st
      → (st2 : Loader) × (o ≡ some st2) × (spawn meta m d w st2 ≡ st)
  then_spawn-eq-some m d w none h = cc
  then_spawn-eq-some m d w (some st2) {st = st} h = (st2, refl, some-injective _ st h)

  pub skipped-builtin :
      (st : Loader) (m : String)
      → st.inner.loaded ≡ []
      → is_skipped meta st m ≡ contains meta.module_builtin m
  skipped-builtin st m empty =
      ap (λ l. is_some (Assoc.get l m) || contains meta.module_builtin m) empty
      ∙ (unfold Assoc.get in refl)

  -- While nothing is loaded: a built-in module is skipped; a module with an entry gets a clone of the
  -- group there; any other gets an entry, its dependencies are loaded, and a thread is spawned.
  pub load_one-cases :
      (f : List String → ℕ → Loader → Option Loader) (m : String) (w : ℕ) (st st' : Loader)
      → st.inner.loaded ≡ []
      → load_one meta f m w st ≡ some st'
      → ((contains meta.module_builtin m ≡ true) × (st ≡ st'))
        ⊎ (((wgs : List ℕ) × (Assoc.get st.inner.loading m ≡ some wgs)
              × (record_handle meta st m (wgs ++ w ∷ []) ≡ st'))
            ⊎ ((st2 : Loader) × (Assoc.get st.inner.loading m ≡ none)
                × (f
                      (deps_of meta m)
                      st.next_wg
                      (fresh_group meta (record_handle meta st m (w ∷ [])))
                    ≡ some st2)
                × (spawn meta m st.next_wg w st2 ≡ st')))
  unfolding load_one
  load_one-cases f m w st st' empty h = elim (Bool-cases (contains meta.module_builtin m)) [
    | inl builtin ↦
        let skip = skipped-builtin st m empty ∙ builtin in
        inl (builtin, some-injective st st' (rw (load_one, skip) at h))
    | inr other ↦
        let skip = skipped-builtin st m empty ∙ other in
        elim (Option-cases (Assoc.get st.inner.loading m)) [
          | inr (wgs, there) ↦
              inr (inl (wgs, there, some-injective _ st' (rw (load_one, skip, there) at h)))
          | inl vacant ↦
              let (st2, deps, e) =
                then_spawn-eq-some m st.next_wg w _ (rw (load_one, skip, vacant) at h) in
              inr (inr (st2, vacant, deps, e))
        ]
  ]
