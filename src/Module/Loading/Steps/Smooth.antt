-- ===== src/Module/Loading/Steps/Smooth.antt =====
-- How each step changes the order of Steps/Orderly when no thread ends early.
use mathlib.Core.Path.{subst}
use ignited.Prelude.{
  All-map, ℕ, ◌<◌, String, true, ◌≡◌, refl, sym, inl, inr, some, List, ◌∷◌, ◌++◌, ◌==◌, eq_refl,
  arith, All, Bool-cases,
}
use ignited.Prelude.Assoc
use ignited.Prelude.Assoc.{get-remove}
use ignited.Config.Runtime.{InitramfsMetadata}
use ignited.Module.Loading.{Job, Loader, contains, post_deps_of}
use ignited.Module.Loading.Kept.{Holds}
use ignited.Module.Loading.Ranked.{Waited, post, Fits}
use ignited.Module.Loading.Ranked.Calls.{contains_all}
use ignited.Module.Loading.Ranked.Unlocked.{load_modules_unlocked-IsFitting}
use ignited.Module.Loading.Steps.{
  System, initial, load_module_rest, Step, request, take, finish, fail, give_up, EndsEarly,
  SmoothReach, here_smooth, next_smooth,
}
use ignited.Module.Loading.Steps.Order.{All-without, without_entry, handles-without_entry}
use ignited.Module.Loading.Steps.Orderly.{
  names_of, names_without, Expected, IsOrderly, keeps_Expected, request-IsOrderly, take-IsOrderly,
}

Holds-without_entry :
    (st : Loader) (m x : String) (v : ℕ) → Holds (without_entry st m) x v → Holds st x v
Holds-without_entry st m x v h = elim (Bool-cases (m == x)) [
  | inl e ↦ absurd (rw (handles-without_entry st m x, e) at h)
  | inr e ↦ rw (handles-without_entry st m x, e) at h
]

module _ (meta : InitramfsMetadata) where
  -- The entry of a thread goes when it has its module.
  without_entry-Fits :
      (fin before after : List Job) (j : Job) (st : Loader)
      → fin ≡ before ++ j ∷ after
      → Fits meta (names_of fin) st
      → Fits meta (names_of (before ++ after)) (without_entry st j.module_name)
  without_entry-Fits fin before after j st at i = record {
    none_loaded = i.none_loaded;
    kept_below = λ x v h. i.kept_below x v (Holds-without_entry st j.module_name x v h);
    jobs_below = i.jobs_below;
    owned = λ x us h. elim (Bool-cases (j.module_name == x)) [
      | inl e ↦ absurd (ground (arith, h, e, get-remove st.inner.loading j.module_name x))
      | inr e ↦ elim (i.owned x us (rw (get-remove st.inner.loading j.module_name x, e) at h)) [
        | inr job ↦ inr job
        | inl there ↦
            elim (names_without x before j after
              (subst (λ js. contains (names_of js) x ≡ true) at there)) [
                | inl same ↦ absurd (ground (arith, e, same, eq_refl x))
                | inr rest ↦ inl rest
              ]
      ]
    ];
    under =
        All-map st.jobs
          (λ k u. record {
            kept_under = λ x h. u.kept_under x (Holds-without_entry st j.module_name x k.deps_wg h);
            jobs_under = u.jobs_under;
          })
          i.under;
  }

  finish-IsOrderly :
      {s : System} (n : ℕ) (j : Job) (before after : List Job) (st : Loader)
      → s.finishing ≡ before ++ j ∷ after
      → load_module_rest meta n j s.loader ≡ some st
      → IsOrderly meta s
      → IsOrderly meta (record { loader = st; finishing = before ++ after; inited = s.inited })
  unfolding load_module_rest
  finish-IsOrderly {s} n j before after st at h i =
      let below : Job → Type 0 = λ k. k.orig_wg < s.loader.next_wg in
      let (mine, others) =
        All-without below before j after (subst (All below) at i.finishing_below) in
      let split =
        All-map s.loader.jobs
          (λ k all.
            All-without (Expected meta k) before j after (subst (All (Expected meta k)) at all))
          i.expected in
      let r =
        load_modules_unlocked-IsFitting meta n (names_of (before ++ after))
          (post_deps_of meta j.module_name) j.orig_wg (without_entry s.loader j.module_name) st
          (without_entry-Fits s.finishing before after j s.loader at i.fits) mine
          (All-map s.loader.jobs
            (λ k all e.
              contains_all (Waited meta k.module_name) (post_deps_of meta j.module_name)
                (λ x listed. post x j.module_name (all.0 (sym e)) listed))
            split)
          h in
      let le = r.1.next_le in
      record {
        fits = r.0;
        finishing_below = All-map (before ++ after) (λ k lt. omega arith) others;
        expected =
            keeps_Expected meta (before ++ after) r.1 others
              (All-map s.loader.jobs (λ k all. all.1) split);
      }

  pub Step-IsOrderly :
      {s t : System} (step : Step meta s t) → ¬ EndsEarly step → IsOrderly meta s → IsOrderly meta t
  Step-IsOrderly (request n ms st h e) smooth i =
      subst (IsOrderly meta) (sym e) (request-IsOrderly meta n ms st h i)
  Step-IsOrderly (take j before after at free e) smooth i =
      subst (IsOrderly meta) (sym e) (take-IsOrderly meta j before after at i)
  Step-IsOrderly (finish n j before after st at h e) smooth i =
      subst (IsOrderly meta) (sym e) (finish-IsOrderly n j before after st at h i)
  Step-IsOrderly (fail j before after at e) smooth i = absurd (smooth tt)
  Step-IsOrderly (give_up j before after at e) smooth i = absurd (smooth tt)

  pub SmoothReach-IsOrderly : {t : System} → SmoothReach meta initial t → IsOrderly meta t
  unfolding Assoc.get
  SmoothReach-IsOrderly here_smooth = record {
    fits = record {
      none_loaded = refl;
      kept_below = λ x v h. absurd h;
      jobs_below = tt;
      owned = λ x us h. cc;
      under = tt;
    };
    finishing_below = tt;
    expected = tt;
  }
  SmoothReach-IsOrderly (next_smooth r step smooth) =
      Step-IsOrderly step smooth (SmoothReach-IsOrderly r)
