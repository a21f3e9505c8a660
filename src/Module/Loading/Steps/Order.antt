-- ===== src/Module/Loading/Steps/Order.antt =====
-- A module is initialised after its dependencies, whatever the threads do.
use mathlib.Core.Path.{subst}
use ignited.Prelude.{
  All-map, ℕ, String, true, ◌≡◌, refl, sym, ◌∙◌, ◌⊎◌, inl, inr, some, List, [], ◌∷◌, ◌++◌, ◌==◌,
  eq_iff, eq_refl, arith, All, Bool-cases, if◌then◌else◌,
}
use ignited.Prelude.Assoc
use ignited.Prelude.Assoc.{get-remove}
use ignited.Config.Runtime.{InitramfsMetadata}
use ignited.Module.Loading.{Job, Loader, contains, handles, deps_of, post_deps_of, fresh_group}
use ignited.Module.Loading.Kept.{Holds}
use ignited.Module.Loading.Effect.{Settled, Waits, AllWait, Loads, load_modules_unlocked-Loads}
use ignited.Module.Loading.Steps.{
  System, initial, load_modules, load_module_rest, IsFree, Step, request, take, finish, fail,
  give_up, Reach, here, next,
}

pub All-without {ℓ κ} :
    {A : Type ℓ} (P : A → Type κ) (xs : List A) (y : A) (zs : List A)
    → All P (xs ++ y ∷ zs)
    → P y × All P (xs ++ zs)
All-without P [] y zs h = h
All-without P (x ∷ xs) y zs (p, h) = let (q, rest) = All-without P xs y zs h in (q, (p, rest))

-- Taking away the entry of a module.
abbrev pub without_entry : Loader → String → Loader
without_entry st m = record st {
  inner = record st.inner { loading = Assoc.remove st.inner.loading m };
}

pub handles-without_entry :
    (st : Loader) (m x : String)
    → handles (without_entry st m) x ≡ (if m == x then [] else handles st x)
handles-without_entry st m x = ground (arith, get-remove st.inner.loading m x)

contains-cons_self : (m : String) (ms : List String) → contains (m ∷ ms) m ≡ true
unfolding contains
contains-cons_self m ms = rw (eq_refl m)

contains-cons :
    (m x : String) (ms : List String) → contains ms x ≡ true → contains (m ∷ ms) x ≡ true
unfolding contains
contains-cons m x ms h = ground arith

module _ (meta : InitramfsMetadata) where
  -- No module is ever recorded as loaded, each thread waits for its dependencies, and a thread that
  -- has got through to the kernel has its module there.
  pub record IsWaiting (s : System) : Type 0 where
    pub none_loaded : s.loader.inner.loaded ≡ []
    pub all_wait : AllWait meta s.inited s.loader
    pub all_taken : All (λ (j : Job). contains s.inited j.module_name ≡ true) s.finishing

  pub Settled-take :
      (inited : List String) (st : Loader) (m : String) (w : ℕ) (x : String)
      → Settled meta inited st w x
      → Settled meta (m ∷ inited) st w x
  Settled-take inited st m w x (inl b) = inl b
  Settled-take inited st m w x (inr (inl d)) = inr (inl (contains-cons m x inited d))
  Settled-take inited st m w x (inr (inr h)) = inr (inr h)

  pub Settled-finish :
      (inited : List String) (st : Loader) (m : String) (w : ℕ) (x : String)
      → contains inited m ≡ true
      → Settled meta inited st w x
      → Settled meta inited (without_entry st m) w x
  Settled-finish inited st m w x taken (inl b) = inl b
  Settled-finish inited st m w x taken (inr (inl d)) = inr (inl d)
  Settled-finish inited st m w x taken (inr (inr h)) = elim (Bool-cases (m == x)) [
    | inl e ↦ inr (inl (subst (λ y. contains inited y ≡ true) ((eq_iff m x).0 e) taken))
    | inr e ↦ inr (inr (rw (handles-without_entry st m x, e) h))
  ]

  -- What a thread does under the lock.
  pub finish-Loads :
      {s : System} (n : ℕ) (j : Job) (before after : List Job) (st : Loader)
      → IsWaiting s
      → s.finishing ≡ before ++ j ∷ after
      → load_module_rest meta n j s.loader ≡ some st
      → Loads meta s.inited
          (post_deps_of meta j.module_name)
          j.orig_wg
          (without_entry s.loader j.module_name)
          st
  unfolding load_module_rest
  finish-Loads {s} n j before after st i at h =
      let (taken, others) =
        All-without (λ (k : Job). contains s.inited k.module_name ≡ true) before j after
          (subst (All (λ (k : Job). contains s.inited k.module_name ≡ true)) at i.all_taken) in
      let waits : AllWait meta s.inited (without_entry s.loader j.module_name) =
        All-map s.loader.jobs
          (λ k w.
            All-map (deps_of meta k.module_name)
              (λ x. Settled-finish s.inited s.loader j.module_name k.deps_wg x taken) w)
          i.all_wait in
      load_modules_unlocked-Loads meta s.inited n _ j.orig_wg (without_entry s.loader j.module_name)
        st i.none_loaded waits h

  pub Step-IsWaiting : {s t : System} → Step meta s t → IsWaiting s → IsWaiting t
  unfolding load_modules
  Step-IsWaiting {s} (request n ms st h e) i =
      let l =
        load_modules_unlocked-Loads meta s.inited n ms s.loader.next_wg (fresh_group meta s.loader)
          st i.none_loaded i.all_wait h in
      subst IsWaiting (sym e) (record {
        none_loaded = l.extends.same_loaded ∙ i.none_loaded;
        all_wait = l.all_wait;
        all_taken = i.all_taken;
      })
  Step-IsWaiting {s} (take j before after at free e) i =
      let (mine, waits) =
        All-without (Waits meta s.inited s.loader) before j after
          (subst (All (Waits meta s.inited s.loader)) at i.all_wait) in
      subst IsWaiting (sym e) (record {
        none_loaded = i.none_loaded;
        all_wait =
            All-map (before ++ after)
              (λ k w.
                All-map (deps_of meta k.module_name)
                  (λ x. Settled-take s.inited s.loader j.module_name k.deps_wg x) w)
              waits;
        all_taken = (
          contains-cons_self j.module_name s.inited,
          All-map s.finishing (λ k. contains-cons j.module_name k.module_name s.inited) i.all_taken,
        );
      })
  Step-IsWaiting {s} (finish n j before after st at h e) i =
      let (taken, others) =
        All-without (λ (k : Job). contains s.inited k.module_name ≡ true) before j after
          (subst (All (λ (k : Job). contains s.inited k.module_name ≡ true)) at i.all_taken) in
      let l = finish-Loads n j before after st i at h in
      subst IsWaiting (sym e) (record {
        none_loaded = l.extends.same_loaded ∙ i.none_loaded;
        all_wait = l.all_wait;
        all_taken = others;
      })
  Step-IsWaiting {s} (fail j before after at e) i =
      let (mine, waits) =
        All-without (Waits meta s.inited s.loader) before j after
          (subst (All (Waits meta s.inited s.loader)) at i.all_wait) in
      subst IsWaiting (sym e)
        (record { none_loaded = i.none_loaded; all_wait = waits; all_taken = i.all_taken })
  Step-IsWaiting {s} (give_up j before after at e) i = subst IsWaiting (sym e) (record {
    none_loaded = i.none_loaded;
    all_wait = i.all_wait;
    all_taken =
        (All-without (λ (k : Job). contains s.inited k.module_name ≡ true) before j after
          (subst (All (λ (k : Job). contains s.inited k.module_name ≡ true)) at i.all_taken)).1;
  })

  pub Reach-IsWaiting : {t : System} → Reach meta initial t → IsWaiting t
  Reach-IsWaiting here = record { none_loaded = refl; all_wait = tt; all_taken = tt }
  Reach-IsWaiting (next r step) = Step-IsWaiting step (Reach-IsWaiting r)

  pub Settled-of_free :
      (inited : List String) (st : Loader) (w : ℕ) (x : String)
      → ¬ Holds st x w
      → Settled meta inited st w x
      → (contains meta.module_builtin x ≡ true) ⊎ (contains inited x ≡ true)
  Settled-of_free inited st w x free (inl b) = inl b
  Settled-of_free inited st w x free (inr (inl d)) = inr d
  Settled-of_free inited st w x free (inr (inr h)) = absurd (free h)

  -- In every state that the threads can reach, a thread that may go on to the kernel finds each
  -- dependency of its module there: built in, or taken before.
  pub free_after_deps :
      {s : System} (j : Job) (before after : List Job)
      → Reach meta initial s
      → s.loader.jobs ≡ before ++ j ∷ after
      → IsFree s (before ++ after) j.deps_wg
      → All
          (λ x. (contains meta.module_builtin x ≡ true) ⊎ (contains s.inited x ≡ true))
          (deps_of meta j.module_name)
  free_after_deps {s} j before after r at free =
      let (mine, _) =
        All-without (Waits meta s.inited s.loader) before j after
          (subst (All (Waits meta s.inited s.loader)) at (Reach-IsWaiting r).all_wait) in
      All-map (deps_of meta j.module_name)
        (λ x. Settled-of_free s.inited s.loader j.deps_wg x (free.not_kept x)) mine
