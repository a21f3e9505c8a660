-- ===== src/Module/Loading/Steps/Circular.antt =====
-- A run in which a module waits for itself.
use ignited.Prelude.{String, ◌≡◌, ◌≢◌, inl, inr, refl, some, [], ◌∷◌, eq_iff, arith}
use ignited.Prelude.Assoc
use ignited.Config.Runtime.{InitramfsMetadata}
use ignited.Module.Loading.{Job, Loader, contains, load_modules_unlocked}
use ignited.Module.Loading.Kept.{Holds}
use ignited.Module.Loading.Steps.{
  System, initial, load_modules, load_module_rest, IsFree, request, take, Reach, here, next,
}
use ignited.Module.Loading.Steps.SelfWait.{post_dep-never-IsFree}

-- custom_lsm_enforce needs custom_lsm, which lists it to be loaded afterwards.
abbrev circular : InitramfsMetadata
circular = record {
  kernel_ver = "6.1";
  module_builtin = [];
  module_deps = ("custom_lsm_enforce", "custom_lsm" ∷ []) ∷ [];
  module_opts = [];
  module_post_deps = ("custom_lsm", "custom_lsm_enforce" ∷ []) ∷ [];
}

abbrev custom_lsm : Job
custom_lsm = record { module_name = "custom_lsm"; deps_wg = 2; orig_wg = 1 }

abbrev enforce : Job
enforce = record { module_name = "custom_lsm_enforce"; deps_wg = 1; orig_wg = 0 }

abbrev lsm_asked : Loader
lsm_asked = record {
  inner = record {
    loaded = [];
    loading = ("custom_lsm_enforce", 0 ∷ []) ∷ ("custom_lsm", 1 ∷ []) ∷ [];
  };
  jobs = custom_lsm ∷ enforce ∷ [];
  next_wg = 3;
}

abbrev lsm_taken : System
lsm_taken = record {
  loader = record lsm_asked { jobs = enforce ∷ [] };
  finishing = custom_lsm ∷ [];
  inited = "custom_lsm" ∷ [];
}

abbrev lsm_left : Loader
lsm_left = record {
  inner = record { loaded = []; loading = ("custom_lsm_enforce", 0 ∷ 1 ∷ []) ∷ [] };
  jobs = enforce ∷ [];
  next_wg = 3;
}

no_lsm_clone_of_2 : (m : String) → ¬ Holds lsm_asked m 2
unfolding Assoc.get
no_lsm_clone_of_2 m h = ground arith

custom_lsm-IsFree :
    IsFree (record { loader = lsm_asked; finishing = []; inited = [] }) (enforce ∷ []) 2
custom_lsm-IsFree = record {
  not_kept = no_lsm_clone_of_2;
  not_waiting = ((λ e. ground (arith, e)), tt);
  not_finishing = tt;
}

lsm_steps : Reach circular initial lsm_taken
unfolding load_modules load_modules_unlocked Assoc.get Assoc.put
lsm_steps =
    next (next here (request 5 ("custom_lsm_enforce" ∷ []) lsm_asked refl refl))
      (take custom_lsm [] (enforce ∷ []) refl custom_lsm-IsFree refl)

lsm_rest : load_module_rest circular 5 custom_lsm lsm_taken.loader ≡ some lsm_left
unfolding load_module_rest load_modules_unlocked Assoc.get Assoc.put Assoc.remove
lsm_rest = refl

lsm_not_enforce : custom_lsm.module_name ≢ enforce.module_name
lsm_not_enforce e = ground (arith, (eq_iff "custom_lsm" "custom_lsm_enforce").1 e)

-- The thread of custom_lsm_enforce waits forever for the group that only it can give up.
post_dep-never-IsFree_example :
    ¬ IsFree (record { loader = lsm_left; finishing = []; inited = "custom_lsm" ∷ [] }) [] 1
unfolding contains Assoc.get
post_dep-never-IsFree_example =
    post_dep-never-IsFree circular 5 custom_lsm [] [] [] lsm_left "custom_lsm_enforce" 0 lsm_steps
      refl lsm_rest refl refl lsm_not_enforce (inl refl) (inr refl, tt) tt here
