-- ===== src/Module/Loading/Steps/Tests.antt =====
-- Runs of the threads: btrfs needs crc32c, and crc32c_intel is to be loaded after that.
use mathlib.Core.Path.{subst}
use ignited.Prelude.{
  ℕ, suc, ◌≤◌, ◌+◌, String, true, ◌≡◌, ◌⊎◌, inl, inr, refl, some, List, [], ◌∷◌, ◌==◌, eq_iff,
  arith, All, Bool-cases, if◌then◌else◌,
}
use ignited.Prelude.Assoc
use ignited.Config.Runtime.{InitramfsMetadata}
use ignited.Module.Loading.{Job, Loader, contains, deps_of, post_deps_of, load_modules_unlocked}
use ignited.Module.Loading.Cost.{total, Covers}
use ignited.Module.Loading.Enough.{IsClosed}
use ignited.Module.Loading.Kept.{Holds}
use ignited.Module.Loading.Ranked.{Waited}
use ignited.Module.Loading.Steps.{
  System, initial, load_modules, load_module_rest, IsFree, Step, request, take, finish, GoesOn,
  SmoothReach, here_smooth, next_smooth,
}
use ignited.Module.Loading.Steps.Progress.{some_thread-GoesOn}
use ignited.Module.Loading.Steps.Ending.{
  Run, over, onwards, left_of, IsQuiet, Waited-less, Run_bounded,
}
use ignited.Module.Loading.Steps.Served.{Taken, request-Taken}

abbrev ordered : InitramfsMetadata
ordered = record {
  kernel_ver = "6.1";
  module_builtin = [];
  module_deps = ("btrfs", "crc32c" ∷ []) ∷ [];
  module_opts = [];
  module_post_deps = ("crc32c", "crc32c_intel" ∷ []) ∷ [];
}

abbrev all_names : List String
all_names = "btrfs" ∷ "crc32c" ∷ "crc32c_intel" ∷ []

abbrev cost_of : String → ℕ
cost_of m = if "btrfs" == m then 6 else (if "crc32c" == m then 4 else 2)

all_names-IsClosed : IsClosed ordered all_names
unfolding contains Assoc.get
all_names-IsClosed m h = ground arith

posts_there : (m : String) → All (λ x. contains all_names x ≡ true) (post_deps_of ordered m)
unfolding contains Assoc.get
posts_there m = ground arith

costs_cover :
    (m : String)
    → suc (
        suc (
          total ordered cost_of (deps_of ordered m)
          + total ordered cost_of (post_deps_of ordered m)))
      ≤ cost_of m
unfolding Assoc.get
costs_cover m = elim (Bool-cases ("btrfs" == m)) [
  | inl e ↦ subst (Covers ordered cost_of) ((eq_iff "btrfs" m).0 e) (omega arith)
  | inr e ↦ elim (Bool-cases ("crc32c" == m)) [
    | inl f ↦ subst (Covers ordered cost_of) ((eq_iff "crc32c" m).0 f) (omega arith)
    | inr f ↦ rw (e, f) (omega arith)
  ]
]

abbrev crc32c : Job
crc32c = record { module_name = "crc32c"; deps_wg = 2; orig_wg = 1 }

abbrev btrfs : Job
btrfs = record { module_name = "btrfs"; deps_wg = 1; orig_wg = 0 }

abbrev asked : Loader
asked = record {
  inner = record { loaded = []; loading = ("btrfs", 0 ∷ []) ∷ ("crc32c", 1 ∷ []) ∷ [] };
  jobs = crc32c ∷ btrfs ∷ [];
  next_wg = 3;
}

abbrev taken : System
taken = record {
  loader = record asked { jobs = btrfs ∷ [] };
  finishing = crc32c ∷ [];
  inited = "crc32c" ∷ [];
}

abbrev crc32c_intel : Job
crc32c_intel = record { module_name = "crc32c_intel"; deps_wg = 3; orig_wg = 1 }

abbrev loaded_after : Loader
loaded_after = record {
  inner = record { loaded = []; loading = ("btrfs", 0 ∷ []) ∷ ("crc32c_intel", 1 ∷ []) ∷ [] };
  jobs = btrfs ∷ crc32c_intel ∷ [];
  next_wg = 4;
}

abbrev finished : System
finished = record { loader = loaded_after; finishing = []; inited = "crc32c" ∷ [] }

no_clone_of_2 : (m : String) → ¬ Holds asked m 2
unfolding Assoc.get
no_clone_of_2 m h = ground arith

crc32c-IsFree : IsFree (record { loader = asked; finishing = []; inited = [] }) (btrfs ∷ []) 2
crc32c-IsFree = record {
  not_kept = no_clone_of_2;
  not_waiting = ((λ e. ground (arith, e)), tt);
  not_finishing = tt;
}

one_request : SmoothReach ordered initial (record { loader = asked; finishing = []; inited = [] })
unfolding load_modules load_modules_unlocked Assoc.get Assoc.put
one_request = next_smooth here_smooth (request 5 ("btrfs" ∷ []) asked refl refl) (λ e. e)

with_take : SmoothReach ordered initial taken
with_take = next_smooth one_request (take crc32c [] (btrfs ∷ []) refl crc32c-IsFree refl) (λ e. e)

one_step : Run ordered 1 taken finished
unfolding load_module_rest load_modules_unlocked Assoc.get Assoc.put Assoc.remove
one_step = onwards (finish 5 crc32c [] [] loaded_after refl refl refl) tt over

Run_bounded_example : 1 ≤ left_of ordered cost_of taken
Run_bounded_example = Run_bounded ordered cost_of costs_cover with_take one_step

-- One step is left for crc32c behind the kernel, two for crc32c_intel, and two for btrfs.
five_left : left_of ordered cost_of taken ≡ 5
unfolding Assoc.get
five_left = refl

first_request : load_modules ordered 5 ("btrfs" ∷ []) initial.loader ≡ some asked
unfolding load_modules load_modules_unlocked Assoc.get Assoc.put
first_request = refl

two_steps : Run ordered 2 (record { loader = asked; finishing = []; inited = [] }) finished
two_steps = onwards (take crc32c [] (btrfs ∷ []) refl crc32c-IsFree refl) tt one_step

request-Taken_example :
    (2 ≤ left_of ordered cost_of (record { loader = asked; finishing = []; inited = [] }))
    × (((u : System) × (step : Step ordered finished u) × GoesOn step)
        ⊎ (IsQuiet finished × All (Taken ordered finished) ("btrfs" ∷ [])))
request-Taken_example =
    request-Taken ordered all_names cost_of 5 ("btrfs" ∷ []) asked all_names-IsClosed posts_there
      costs_cover here_smooth first_request two_steps

costs_rank : (m x : String) → Waited ordered m x → suc (cost_of x) ≤ cost_of m
costs_rank m x w = Waited-less ordered cost_of costs_cover w

some_thread-GoesOn_example :
    ((taken.loader.jobs ≡ []) × (taken.finishing ≡ []))
    ⊎ ((t : System) × (step : Step ordered taken t) × GoesOn step)
some_thread-GoesOn_example =
    some_thread-GoesOn ordered all_names cost_of all_names-IsClosed posts_there costs_rank with_take
