-- ===== src/Module/Tests.antt =====
-- Runs of the module parameters and of module loading: btrfs needs crc32c and the built-in dm_mod.
use ignited.Prelude.{
  suc, ℕ, String, true, ◌≡◌, ◌≢◌, eq_iff, inl, refl, some, List, [], ◌∷◌, ◌++◌, arith,
}
use ignited.Prelude.Assoc
use ignited.Config.Runtime.{InitramfsMetadata}
use ignited.Module.Finit.{ModuleAnswers, finit_params}
use ignited.Logging.{KConsole, debug}
use ignited.Prelude.Outcome.{ok}
use ignited.Prelude.Text.{join, replace}
use ignited.Module.Params.{ModParams, get_params}
use ignited.Module.Loading.{Job, Loader, contains, load_modules_unlocked}
use ignited.Module.Loading.Enough.{load_modules_unlocked_returns, missing, IsClosed}
use ignited.Module.Loading.Kept.{Holds}
use ignited.Module.Loading.Effect.{load_modules_unlocked-Loads, Loads}
use ignited.Module.Loading.Steps.{
  System, initial, load_modules, load_module_rest, IsFree, request, take, finish, Reach, here, next,
}
use ignited.Module.Loading.Steps.Sorted.{IsSorted, inited-IsSorted}
use ignited.Module.Loading.Steps.Stuck.{never-IsFree}
use ignited.Module.Loading.Steps.Again.{load_modules_again}

abbrev given : ModParams
given = ("snd_hda", "power_save=1" ∷ []) ∷ []

abbrev meta : InitramfsMetadata
meta = record {
  kernel_ver = "6.1";
  module_builtin = "dm_mod" ∷ [];
  module_deps = ("btrfs", "crc32c" ∷ "dm_mod" ∷ []) ∷ [];
  module_opts = [];
  module_post_deps = [];
}

abbrev crc32c : Job
crc32c = record { module_name = "crc32c"; deps_wg = 2; orig_wg = 1 }

abbrev btrfs : Job
btrfs = record { module_name = "btrfs"; deps_wg = 1; orig_wg = 0 }

-- What the first call leaves.
abbrev asked : Loader
asked = record {
  inner = record { loaded = []; loading = ("btrfs", 0 ∷ []) ∷ ("crc32c", 1 ∷ []) ∷ [] };
  jobs = crc32c ∷ btrfs ∷ [];
  next_wg = 3;
}

abbrev first_group : Loader
first_group = record { inner = record { loaded = []; loading = [] }; jobs = []; next_wg = 1 }

first_call : load_modules_unlocked meta 5 ("btrfs" ∷ []) 0 first_group ≡ some asked
unfolding load_modules_unlocked Assoc.get Assoc.put
first_call = refl

load_modules_unlocked-Loads_example : Loads meta [] ("btrfs" ∷ []) 0 first_group asked
load_modules_unlocked-Loads_example =
    load_modules_unlocked-Loads meta [] 5 ("btrfs" ∷ []) 0 first_group asked refl tt first_call

abbrev three_names : List String
three_names = "btrfs" ∷ "crc32c" ∷ "dm_mod" ∷ []

three_names-IsClosed : IsClosed meta three_names
unfolding contains Assoc.get
three_names-IsClosed m h = ground arith

load_modules_unlocked_returns_example :
    (st' : Loader) × (load_modules_unlocked meta 7 ("btrfs" ∷ []) 0 first_group ≡ some st')
    × (load_modules_unlocked meta
          (suc (missing first_group.inner.loading three_names))
          ("btrfs" ∷ [])
          0
          first_group
        ≡ some st')
unfolding contains missing Assoc.get
load_modules_unlocked_returns_example =
    load_modules_unlocked_returns meta three_names 7 ("btrfs" ∷ []) 0 first_group
      three_names-IsClosed (refl, tt) (ground arith)

abbrev after_request : System
after_request = record { loader = asked; finishing = []; inited = [] }

abbrev after_take : System
after_take = record {
  loader = record asked { jobs = btrfs ∷ [] };
  finishing = crc32c ∷ [];
  inited = "crc32c" ∷ [];
}

abbrev one_left : Loader
one_left = record {
  inner = record { loaded = []; loading = ("btrfs", 0 ∷ []) ∷ [] };
  jobs = btrfs ∷ [];
  next_wg = 3;
}

abbrev after_finish : System
after_finish = record { loader = one_left; finishing = []; inited = "crc32c" ∷ [] }

no_clone_of_2 : (m : String) → ¬ Holds asked m 2
unfolding Assoc.get
no_clone_of_2 m h = ground arith

no_clone_of_1 : (m : String) → ¬ Holds one_left m 1
unfolding Assoc.get
no_clone_of_1 m h = ground arith

crc32c-IsFree : IsFree after_request (btrfs ∷ []) 2
crc32c-IsFree = record {
  not_kept = no_clone_of_2;
  not_waiting = ((λ e. ground (arith, e)), tt);
  not_finishing = tt;
}

btrfs-IsFree : IsFree after_finish [] 1
btrfs-IsFree = record { not_kept = no_clone_of_1; not_waiting = tt; not_finishing = tt }

three_steps : Reach meta initial after_finish
unfolding load_modules load_module_rest load_modules_unlocked Assoc.get Assoc.put Assoc.remove
three_steps =
    next
      (next (next here (request 5 ("btrfs" ∷ []) asked refl refl))
        (take crc32c [] (btrfs ∷ []) refl crc32c-IsFree refl))
      (finish 5 crc32c [] [] one_left refl refl refl)

abbrev after_btrfs : System
after_btrfs = record {
  loader = record one_left { jobs = [] };
  finishing = btrfs ∷ [];
  inited = "btrfs" ∷ "crc32c" ∷ [];
}

inited-IsSorted_example : IsSorted meta ("btrfs" ∷ "crc32c" ∷ [])
inited-IsSorted_example =
    inited-IsSorted meta {s = after_btrfs}
      (next three_steps (take btrfs [] [] refl btrfs-IsFree refl))

-- The finished module once more.
abbrev asked_again : Loader
asked_again = record {
  inner = record { loaded = []; loading = ("btrfs", 0 ∷ []) ∷ ("crc32c", 3 ∷ []) ∷ [] };
  jobs = btrfs ∷ record { module_name = "crc32c"; deps_wg = 4; orig_wg = 3 } ∷ [];
  next_wg = 5;
}

load_modules_again_example :
    (others : List Job) × (d : ℕ) × (asked_again.jobs
      ≡ others ++ record { module_name = "crc32c"; deps_wg = d; orig_wg = 3 } ∷ [])
unfolding load_modules load_modules_unlocked contains Assoc.get Assoc.put
load_modules_again_example =
    load_modules_again meta 5 "crc32c" asked_again three_steps refl refl refl

abbrev after_fail : System
after_fail = record { loader = record asked { jobs = btrfs ∷ [] }; finishing = []; inited = [] }

one_step : Reach meta initial after_request
unfolding load_modules load_modules_unlocked Assoc.get Assoc.put
one_step = next here (request 5 ("btrfs" ∷ []) asked refl refl)

btrfs_not_crc32c : btrfs.module_name ≢ crc32c.module_name
btrfs_not_crc32c e = ground (arith, (eq_iff "btrfs" "crc32c").1 e)

-- The thread of crc32c ends early: that of btrfs waits forever.
never-IsFree_example : ¬ IsFree after_fail [] 1
unfolding Assoc.get
never-IsFree_example =
    never-IsFree meta crc32c [] (btrfs ∷ []) [] 1 one_step refl (btrfs_not_crc32c, tt) tt (inl refl)
      here

abbrev willing : ModuleAnswers
willing = record { opened = ok tt; takes = λ params. true }

abbrev verbose : KConsole
verbose = record { handle = []; current_level = debug }

no_params : finit_params meta given "btrfs" ≡ " "
unfolding finit_params Assoc.get get_params join replace
no_params = refl
