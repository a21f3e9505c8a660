-- ===== src/Module/Loading/Steps/SelfWait.antt =====
-- A module whose dependency lists it to be loaded afterwards (`load_module` of src/module.rs).
use ignited.Prelude.{
  ℕ, String, true, false, ◌≡◌, ◌≢◌, refl, inl, inr, some, List, [], ◌∷◌, ◌++◌, ◌==◌, eq_iff, arith,
  All, Bool-cases,
}
use ignited.Config.Runtime.{InitramfsMetadata}
use ignited.Module.Loading.{Job, Loader, contains, post_deps_of}
use ignited.Module.Loading.Kept.{Holds}
use ignited.Module.Loading.Effect.{Covered}
use ignited.Module.Loading.Steps.{System, initial, load_module_rest, IsFree, finish, Reach, next}
use ignited.Module.Loading.Steps.Order.{Reach-IsWaiting, finish-Loads}
use ignited.Module.Loading.Steps.Stuck.{
  IsIdle, IsStuck, load_modules_unlocked-Keeps, without_entry-IsStuck, idle-never-IsFree,
}
use mathlib.Core.Path.{subst}

kept_of_Covered :
    (meta : InitramfsMetadata) (st : Loader) (w : ℕ) (ms : List String) (p : String)
    → All (Covered meta st w) ms
    → contains ms p ≡ true
    → contains meta.module_builtin p ≡ false
    → Holds st p w
unfolding contains
kept_of_Covered meta st w [] p all there other = cc
kept_of_Covered meta st w (m ∷ ms) p (one, all) there other = elim (Bool-cases (m == p)) [
  | inl e ↦ elim one [
    | inl builtin ↦ absurd (ground (arith, builtin, other, (eq_iff m p).0 e))
    | inr h ↦ subst (λ x. Holds st x w) ((eq_iff m p).0 e) h
  ]
  | inr e ↦ kept_of_Covered meta st w ms p all (rw e at there) other
]

-- Say that a thread ends whose module lists `p` to be loaded afterwards, and that all threads for `p`
-- wait for the group that this thread was started for, as they do if it is a dependency of `p`. Then
-- the group is never free again, whatever the threads do: `p` waits for itself forever.
pub post_dep-never-IsFree :
    (meta : InitramfsMetadata) {s t : System} (n : ℕ) (j : Job) (before after others : List Job)
    (st : Loader) (p : String) (v : ℕ)
    → Reach meta initial s
    → s.finishing ≡ before ++ j ∷ after
    → load_module_rest meta n j s.loader ≡ some st
    → contains (post_deps_of meta j.module_name) p ≡ true
    → contains meta.module_builtin p ≡ false
    → j.module_name ≢ p
    → Holds s.loader p v
    → All (IsIdle p j.orig_wg) s.loader.jobs
    → All (λ (k : Job). k.module_name ≢ p) (before ++ after)
    → Reach meta (record { loader = st; finishing = before ++ after; inited = s.inited }) t
    → ¬ IsFree t others j.orig_wg
unfolding load_module_rest
post_dep-never-IsFree meta {s} n j before after others st p v start at h listed other differs kept
      idle done =
    let waiting = Reach-IsWaiting meta start in
    let l = finish-Loads meta n j before after st waiting at h in
    let stuck : IsStuck meta p v j.orig_wg s.loader = record {
      none_loaded = waiting.none_loaded;
      kept = kept;
      idle = idle;
    } in
    let left =
      load_modules_unlocked-Keeps meta p v j.orig_wg n (post_deps_of meta j.module_name) j.orig_wg _
        st (without_entry-IsStuck meta p v j.orig_wg s.loader j.module_name differs stuck) h in
    idle-never-IsFree meta p j.orig_wg others (next start (finish n j before after st at h refl))
      (kept_of_Covered meta st j.orig_wg (post_deps_of meta j.module_name) p l.covered listed other)
      left.idle done
