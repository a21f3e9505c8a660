-- ===== src/Module/Loading/Steps/Sorted.antt =====
-- The order in which the kernel takes the modules of src/module.rs.
use mathlib.Core.Path.{subst}
use ignited.Prelude.{String, true, ◌≡◌, sym, ◌⊎◌, List, [], ◌∷◌, All}
use ignited.Config.Runtime.{InitramfsMetadata}
use ignited.Module.Loading.{contains, deps_of}
use ignited.Module.Loading.Steps.{
  System, initial, Step, request, take, finish, fail, give_up, Reach, here, next,
}
use ignited.Module.Loading.Steps.Order.{free_after_deps}

module _ (meta : InitramfsMetadata) where
  -- Of modules, the last first: each dependency is built in or comes before.
  abbrev pub IsSorted : List String → Type 0
  IsSorted [] = Unit
  IsSorted (m ∷ ms) =
      All (λ x. (contains meta.module_builtin x ≡ true) ⊎ (contains ms x ≡ true)) (deps_of meta m)
      × IsSorted ms

  Step-IsSorted :
      {s t : System} → Step meta s t → Reach meta initial s → IsSorted s.inited → IsSorted t.inited
  Step-IsSorted (request n ms st h e) r i = subst (λ (u : System). IsSorted u.inited) (sym e) i
  Step-IsSorted (take j before after at free e) r i =
      subst (λ (u : System). IsSorted u.inited) (sym e)
        (free_after_deps meta j before after r at free, i)
  Step-IsSorted (finish n j before after st at h e) r i =
      subst (λ (u : System). IsSorted u.inited) (sym e) i
  Step-IsSorted (fail j before after at e) r i = subst (λ (u : System). IsSorted u.inited) (sym e) i
  Step-IsSorted (give_up j before after at e) r i =
      subst (λ (u : System). IsSorted u.inited) (sym e) i

  -- In every state that the threads can reach, whichever of them end early, the modules that the
  -- kernel has taken are in an order in which each dependency is built in or comes before.
  pub inited-IsSorted : {s : System} → Reach meta initial s → IsSorted s.inited
  inited-IsSorted here = tt
  inited-IsSorted (next r step) = Step-IsSorted step r (inited-IsSorted r)
