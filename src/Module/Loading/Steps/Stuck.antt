-- ===== src/Module/Loading/Steps/Stuck.antt =====
-- What a thread of src/module.rs that ends early leaves behind.
use mathlib.Core.Path.{subst}
use mathlib.Core.Option.{some-injective}
use ignited.Prelude.{
  All-map, ℕ, zero, suc, String, ◌≡◌, ◌≢◌, ◌⊎◌, refl, ap, sym, inl, inr, Option, none, some, List,
  [], ◌∷◌, ◌++◌, ◌==◌, eq_iff, All, All-append, Bool-cases, unwrap_or,
}
use ignited.Prelude.Assoc
use ignited.Config.Runtime.{InitramfsMetadata}
use ignited.Module.Loading.Cases.{load_one-cases, bind_loader-eq-some}
use ignited.Module.Loading.Kept.{Holds, In-append_left, entry-Extends, record_handle-Extends}
use ignited.Module.Loading.{
  Job, Loader, deps_of, record_handle, fresh_group, spawn, load_one, load_each,
  load_modules_unlocked,
}
use ignited.Module.Loading.Steps.{
  System, initial, load_modules, load_module_rest, IsFree, Step, request, take, finish, fail,
  give_up, Reach, here, next,
}
use ignited.Module.Loading.Steps.Order.{
  All-without, Reach-IsWaiting, without_entry, handles-without_entry,
}

abbrev pub Other : String → Job → Type 0
Other m j = j.module_name ≢ m

-- It is for another module, or waits for the group.
abbrev pub IsIdle : String → ℕ → Job → Type 0
IsIdle m w j = Other m j ⊎ (j.deps_wg ≡ w)

module _ (meta : InitramfsMetadata) (m : String) (kept_wg w : ℕ) where
  -- A group is kept for a module that no thread will load before the group is free.
  pub record IsStuck (st : Loader) : Type 0 where
    pub none_loaded : st.inner.loaded ≡ []
    pub kept : Holds st m kept_wg
    pub idle : All (IsIdle m w) st.jobs

  abbrev pub Keeps : (List String → ℕ → Loader → Option Loader) → Type 0
  Keeps f =
      (ms : List String) (v : ℕ) (st st' : Loader) → IsStuck st → f ms v st ≡ some st' → IsStuck st'

  vacant_other :
      (st : Loader) (x : String) → IsStuck st → Assoc.get st.inner.loading x ≡ none → x ≢ m
  vacant_other st x i vacant e =
      rw (ap (λ o. unwrap_or o []) (subst (λ y. Assoc.get st.inner.loading y ≡ none) e vacant)) at
        i.kept

  occupied-IsStuck :
      (st : Loader) (x : String) (v : ℕ) (wgs : List ℕ)
      → IsStuck st
      → Assoc.get st.inner.loading x ≡ some wgs
      → IsStuck (record_handle meta st x (wgs ++ v ∷ []))
  occupied-IsStuck st x v wgs i there =
      let e =
        record_handle-Extends meta st x (wgs ++ v ∷ [])
          (λ u h. In-append_left u wgs (v ∷ []) (rw (ap (λ o. unwrap_or o []) there) at h)) in
      record { none_loaded = i.none_loaded; kept = e.keeps m kept_wg i.kept; idle = i.idle }

  entry-IsStuck :
      (st : Loader) (x : String) (v : ℕ)
      → IsStuck st
      → Assoc.get st.inner.loading x ≡ none
      → IsStuck (fresh_group meta (record_handle meta st x (v ∷ [])))
  entry-IsStuck st x v i vacant =
      let e = entry-Extends meta st x v vacant in
      record { none_loaded = i.none_loaded; kept = e.keeps m kept_wg i.kept; idle = i.idle }

  spawn-IsStuck :
      (st : Loader) (x : String) (d v : ℕ) → IsStuck st → x ≢ m → IsStuck (spawn meta x d v st)
  spawn-IsStuck st x d v i other = record {
    none_loaded = i.none_loaded;
    kept = i.kept;
    idle = All-append (IsIdle m w) st.jobs _ i.idle (inl other, tt);
  }

  load_one-IsStuck :
      (f : List String → ℕ → Loader → Option Loader)
      → Keeps f
      → (x : String) (v : ℕ) (st st' : Loader) → IsStuck st
      → load_one meta f x v st ≡ some st'
      → IsStuck st'
  load_one-IsStuck f keeps x v st st' i h =
      elim (load_one-cases meta f x v st st' i.none_loaded h) [
        | inl (builtin, e) ↦ subst IsStuck e i
        | inr (inl (wgs, there, e)) ↦ subst IsStuck e (occupied-IsStuck st x v wgs i there)
        | inr (inr (st2, vacant, deps, e)) ↦ subst IsStuck e (
            spawn-IsStuck st2 x st.next_wg v
              (keeps (deps_of meta x) st.next_wg
                (fresh_group meta (record_handle meta st x (v ∷ []))) st2
                (entry-IsStuck st x v i vacant) deps)
              (vacant_other st x i vacant))
      ]

  load_each-Keeps :
      (f : List String → ℕ → Loader → Option Loader) → Keeps f → Keeps (load_each meta f)
  unfolding load_each
  load_each-Keeps f keeps [] v st st' i h = subst IsStuck (some-injective st st' h) i
  load_each-Keeps f keeps (x ∷ xs) v st st' i h =
      let (st1, one, rest) = bind_loader-eq-some meta _ _ h in
      load_each-Keeps f keeps xs v st1 st' (load_one-IsStuck f keeps x v st st1 i one) rest

  pub load_modules_unlocked-Keeps : (n : ℕ) → Keeps (load_modules_unlocked meta n)
  unfolding load_modules_unlocked
  load_modules_unlocked-Keeps zero ms v st st' i h = cc
  load_modules_unlocked-Keeps (suc n) ms v st st' i h =
      load_each-Keeps (load_modules_unlocked meta n) (load_modules_unlocked-Keeps n) ms v st st' i h

  pub without_entry-IsStuck :
      (st : Loader) (x : String) → x ≢ m → IsStuck st → IsStuck (without_entry st x)
  without_entry-IsStuck st x other i = record {
    none_loaded = i.none_loaded;
    kept = elim (Bool-cases (x == m)) [
      | inl e ↦ absurd (other ((eq_iff x m).0 e))
      | inr e ↦ rw (handles-without_entry st x m, e) i.kept
    ];
    idle = i.idle;
  }

module _ (meta : InitramfsMetadata) (m : String) (w : ℕ) where
  abbrev Stuck : Loader → Type 0
  Stuck = IsStuck meta m w w

  -- The same of the threads behind the kernel's answer.
  pub record IsAbandoned (s : System) : Type 0 where
    pub stuck : Stuck s.loader
    pub no_finishing : All (Other m) s.finishing

  Step-IsAbandoned : {s t : System} → Step meta s t → IsAbandoned s → IsAbandoned t
  unfolding load_modules load_module_rest
  Step-IsAbandoned {s} (request n ms st h e) i =
      let asked : Stuck (fresh_group meta s.loader) = record {
        none_loaded = i.stuck.none_loaded;
        kept = i.stuck.kept;
        idle = i.stuck.idle;
      } in
      subst IsAbandoned (sym e) (record {
        stuck = load_modules_unlocked-Keeps meta m w w n ms s.loader.next_wg _ st asked h;
        no_finishing = i.no_finishing;
      })
  Step-IsAbandoned {s} (take j before after at free e) i =
      let (mine, others) =
        All-without (IsIdle m w) before j after (subst (All (IsIdle m w)) at i.stuck.idle) in
      let other : Other m j = elim mine [
        | inl o ↦ o
        | inr waits ↦ absurd (free.not_kept m (subst (Holds s.loader m) (sym waits) i.stuck.kept))
      ] in
      subst IsAbandoned (sym e) (record {
        stuck = record { none_loaded = i.stuck.none_loaded; kept = i.stuck.kept; idle = others };
        no_finishing = (other, i.no_finishing);
      })
  Step-IsAbandoned {s} (finish n j before after st at h e) i =
      let (mine, others) =
        All-without (Other m) before j after (subst (All (Other m)) at i.no_finishing) in
      subst IsAbandoned (sym e) (record {
        stuck =
            load_modules_unlocked-Keeps meta m w w n _ j.orig_wg _ st
              (without_entry-IsStuck meta m w w s.loader j.module_name mine i.stuck) h;
        no_finishing = others;
      })
  Step-IsAbandoned {s} (fail j before after at e) i =
      let (mine, others) =
        All-without (IsIdle m w) before j after (subst (All (IsIdle m w)) at i.stuck.idle) in
      subst IsAbandoned (sym e) (record {
        stuck = record { none_loaded = i.stuck.none_loaded; kept = i.stuck.kept; idle = others };
        no_finishing = i.no_finishing;
      })
  Step-IsAbandoned {s} (give_up j before after at e) i = subst IsAbandoned (sym e) (record {
    stuck = i.stuck;
    no_finishing =
        (All-without (Other m) before j after (subst (All (Other m)) at i.no_finishing)).1;
  })

  Reach-IsAbandoned : {s t : System} → Reach meta s t → IsAbandoned s → IsAbandoned t
  Reach-IsAbandoned here i = i
  Reach-IsAbandoned (next r step) i = Step-IsAbandoned step (Reach-IsAbandoned r i)

-- A group that is kept for a module is never free again, whatever the threads do, if every thread for
-- that module waits for the group itself, and none is between the kernel and its end.
pub idle-never-IsFree :
    (meta : InitramfsMetadata) {s t : System} (m : String) (w : ℕ) (others : List Job)
    → Reach meta initial s
    → Holds s.loader m w
    → All (IsIdle m w) s.loader.jobs
    → All (λ (k : Job). k.module_name ≢ m) s.finishing
    → Reach meta s t
    → ¬ IsFree t others w
idle-never-IsFree meta {s} m w others start kept idle done r free =
    let left : IsAbandoned meta m w s = record {
      stuck = record {
        none_loaded = (Reach-IsWaiting meta start).none_loaded;
        kept = kept;
        idle = idle;
      };
      no_finishing = done;
    } in
    free.not_kept m (Reach-IsAbandoned meta m w r left).stuck.kept

-- When a thread ends early that was the only one for its module, no group that is kept for the
-- module is ever free again, whatever the threads do: whoever waits for it waits forever.
pub never-IsFree :
    (meta : InitramfsMetadata) {s t : System} (j : Job) (before after others : List Job) (w : ℕ)
    → Reach meta initial s
    → s.loader.jobs ≡ before ++ j ∷ after
    → All (λ (k : Job). k.module_name ≢ j.module_name) (before ++ after)
    → All (λ (k : Job). k.module_name ≢ j.module_name) s.finishing
    → Holds s.loader j.module_name w
    → Reach meta (record s { loader = record s.loader { jobs = before ++ after } }) t
    → ¬ IsFree t others w
never-IsFree meta {s} j before after others w start at idle done kept r =
    idle-never-IsFree meta j.module_name w others (next start (fail j before after at refl)) kept
      (All-map (before ++ after) (λ k o. inl o) idle) done r
