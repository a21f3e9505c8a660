-- ===== src/Module/Loading/Ranked/Calls.antt =====
-- The parts of one round of `load_modules_unlocked` in src/module.rs and what each adds.
use mathlib.Core.Path.{subst}
use ignited.Prelude.{
  All-map, ℕ, ◌≤◌, ◌<◌, String, true, ◌≡◌, refl, sym, inl, inr, Option, some, List, [], ◌∷◌, ◌++◌,
  ◌==◌, eq_iff, eq_refl, arith, All, All-append, Bool-cases,
}
use ignited.Prelude.Assoc.{get-put}
use ignited.Config.Runtime.{InitramfsMetadata}
use ignited.Module.Loading.{Job, Loader, contains, record_handle, fresh_group, spawn}
use ignited.Module.Loading.Kept.{In-append_cases, In, Holds, handles-record_handle}
use ignited.Module.Loading.Ranked.{
  Has-append_left, Has-append_right, Waited, Under, Allowed, IsUsed, Fits, Adds, Under-Adds,
  both_All,
}

pub contains_all :
    (P : String → Type 0) (ms : List String)
    → ((x : String) → contains ms x ≡ true → P x)
    → All P ms
unfolding contains
contains_all P [] f = tt
contains_all P (m ∷ ms) f =
    (f m (rw (eq_refl m)), contains_all P ms (λ x h. f x (ground (arith, h))))

module _ (meta : InitramfsMetadata) where
  -- Setting an entry to its handles and the group.
  pub set-Adds :
      (st : Loader) (x : String) (w : ℕ) (wgs : List ℕ)
      → ((v : ℕ) → In v wgs → Holds st x v)
      → Adds meta x w st (record_handle meta st x (wgs ++ w ∷ []))
  set-Adds st x w wgs old = record {
    same_loaded = refl;
    same_jobs = refl;
    next_le = omega arith;
    kept = λ y v h. elim (Bool-cases (x == y)) [
      | inl e ↦
          elim (In-append_cases v wgs (w ∷ [])
            (rw (handles-record_handle meta st x y (wgs ++ w ∷ []), e) at h)) [
              | inl before ↦ inl (subst (λ z. Holds st z v) ((eq_iff x y).0 e) (old v before))
              | inr (inl same) ↦ inr ((eq_iff x y).0 e, same)
              | inr (inr none_left) ↦ absurd none_left
            ]
      | inr e ↦ inl (rw (handles-record_handle meta st x y (wgs ++ w ∷ []), e) at h)
    ];
    entries = λ y us h. elim (Bool-cases (x == y)) [
      | inl e ↦ inl ((eq_iff x y).0 e)
      | inr e ↦ inr (us, rw (get-put st.inner.loading x y (wgs ++ w ∷ []), e) at h)
    ];
  }

  pub entry-Adds :
      (st : Loader) (x : String) (w : ℕ)
      → Adds meta x w st (fresh_group meta (record_handle meta st x (w ∷ [])))
  entry-Adds st x w =
      let a = set-Adds st x w [] (λ v h. absurd h) in
      record {
        same_loaded = refl;
        same_jobs = refl;
        next_le = omega arith;
        kept = a.kept;
        entries = a.entries;
      }

  pub weaken_names :
      (st : Loader) (x : String) (names : List String)
      → Fits meta names st
      → Fits meta (x ∷ names) st
  unfolding contains
  weaken_names st x names i = record {
    none_loaded = i.none_loaded;
    kept_below = i.kept_below;
    jobs_below = i.jobs_below;
    under = i.under;
    owned = λ y us h. elim (i.owned y us h) [
      | inl there ↦ inl (ground (arith, there))
      | inr job ↦ inr job
    ];
  }

  -- What a call for the group `w` leaves as it was, and how it may extend it.
  pub record Grows (w : ℕ) (ms : List String) (st st' : Loader) : Type 1 where
    pub next_le : st.next_wg ≤ st'.next_wg
    pub keeps_under :
        (v : ℕ) (m : String)
        → v < st.next_wg
        → (v ≡ w → All (Waited meta m) ms)
        → Under meta v m st
        → Under meta v m st'
    pub keeps_jobs :
        (Q : Job → Type 0)
        → ((j : Job) → st.next_wg ≤ j.deps_wg → Q j)
        → All Q st.jobs
        → All Q st'.jobs

  pub Adds-Grows :
      {x : String} {w : ℕ} {st st' : Loader} → Adds meta x w st st' → Grows w (x ∷ []) st st'
  Adds-Grows a = record {
    next_le = a.next_le;
    keeps_under = λ v m below ok u. Under-Adds meta v m a (λ e. (ok e).0) u;
    keeps_jobs = λ Q new old. subst (All Q) (sym a.same_jobs) old;
  }

  pub Grows-cons :
      {w : ℕ} {x : String} {ms : List String} {a b c : Loader}
      → Grows w (x ∷ []) a b
      → Grows w ms b c
      → Grows w (x ∷ ms) a c
  Grows-cons f g = record {
    next_le = let le = f.next_le in let le2 = g.next_le in omega arith;
    keeps_under = λ v m below ok u.
        g.keeps_under v m (let le = f.next_le in omega arith) (λ e. (ok e).1)
          (f.keeps_under v m below (λ e. ((ok e).0, tt)) u);
    keeps_jobs = λ Q new old.
        g.keeps_jobs Q (λ j h. new j (let le = f.next_le in omega arith)) (f.keeps_jobs Q new old);
  }

  abbrev pub IsFitting : (List String → ℕ → Loader → Option Loader) → Type 1
  IsFitting f =
      (names ms : List String) (w : ℕ) (st st' : Loader)
      → Fits meta names st
      → w < st.next_wg
      → Allowed meta w ms st
      → f ms w st ≡ some st'
      → Fits meta names st' × Grows w ms st st'

  -- No thread waits for a group that is new.
  pub new_Allowed :
      (st : Loader) (n : ℕ) (ms : List String)
      → n ≤ st.next_wg
      → All (IsUsed meta n) st.jobs
      → Allowed meta n ms st
  new_Allowed st n ms le below = All-map st.jobs (λ j h e. absurd (omega arith)) below

  -- Of a group that was new before one entry was set there is no use.
  pub new_Under :
      (names : List String) (st st1 : Loader) (x : String) (w : ℕ)
      → Fits meta names st
      → w < st.next_wg
      → Adds meta x w st st1
      → Under meta st.next_wg x st1
  new_Under names st st1 x w i below a = record {
    kept_under = λ y h. elim (a.kept y st.next_wg h) [
      | inl old ↦ absurd (let lt = i.kept_below y st.next_wg old in omega arith)
      | inr (e, same) ↦ absurd (omega arith)
    ];
    jobs_under =
        subst (All (λ (k : Job). k.orig_wg ≡ st.next_wg → Waited meta x k.module_name))
          (sym a.same_jobs) (All-map st.jobs (λ k h e. absurd (omega arith)) i.jobs_below);
  }

  spawn-Under :
      (v : ℕ) (m x : String) (d w : ℕ) (st : Loader)
      → (w ≡ v → Waited meta m x)
      → Under meta v m st
      → Under meta v m (spawn meta x d w st)
  spawn-Under v m x d w st ok u = record {
    kept_under = u.kept_under;
    jobs_under =
        All-append (λ (k : Job). k.orig_wg ≡ v → Waited meta m k.module_name) st.jobs _ u.jobs_under
          (ok, tt);
  }

  pub spawn-Fits :
      (names : List String) (x : String) (d w : ℕ) (st : Loader)
      → Fits meta (x ∷ names) st
      → d < st.next_wg
      → w < d
      → Allowed meta w (x ∷ []) st
      → Under meta d x st
      → Fits meta names (spawn meta x d w st)
  unfolding contains
  spawn-Fits names x d w st i below less allowed u = record {
    none_loaded = i.none_loaded;
    kept_below = i.kept_below;
    jobs_below =
        All-append (IsUsed meta st.next_wg) st.jobs _ i.jobs_below ((below, omega arith), tt);
    owned = λ y us h. elim (i.owned y us h) [
      | inr job ↦ inr (Has-append_left y st.jobs _ job)
      | inl there ↦ elim (Bool-cases (x == y)) [
        | inl e ↦ inr (Has-append_right y st.jobs _ (inl ((eq_iff x y).0 e)))
        | inr e ↦ inl (rw e at there)
      ]
    ];
    under =
        All-append (λ (j : Job). Under meta j.deps_wg j.module_name (spawn meta x d w st)) st.jobs _
          (both_All meta st.jobs
            (λ j old ok. spawn-Under j.deps_wg j.module_name x d w st (λ e. (ok (sym e)).0) old)
            i.under allowed)
          (spawn-Under d x x d w st (λ e. absurd (omega arith)) u, tt);
  }

  pub spawn-Grows :
      (x : String) (d w : ℕ) (st0 st : Loader)
      → st0.next_wg ≤ d
      → st0.next_wg ≤ st.next_wg
      → ((v : ℕ) (m : String)
          → v < st0.next_wg
          → (v ≡ w → All (Waited meta m) (x ∷ []))
          → Under meta v m st0
          → Under meta v m st)
      → ((Q : Job → Type 0)
          → ((j : Job) → st0.next_wg ≤ j.deps_wg → Q j)
          → All Q st0.jobs
          → All Q st.jobs)
      → Grows w (x ∷ []) st0 (spawn meta x d w st)
  spawn-Grows x d w st0 st new le unders jobs = record {
    next_le = le;
    keeps_under =
        λ v m below ok u. spawn-Under v m x d w st (λ e. (ok (sym e)).0) (unders v m below ok u);
    keeps_jobs = λ Q fresh old. All-append Q st.jobs _ (jobs Q fresh old) (fresh _ new, tt);
  }
