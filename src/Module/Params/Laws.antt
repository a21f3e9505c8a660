-- ===== src/Module/Params/Laws.antt =====
-- A parameter is found under every spelling of its module, behind those given before it.
use Prim.Native.String.{◌∷◌}
use ignited.Prelude.{
  String, ◌≡◌, refl, List, [], ◌++◌, arith, ◌==◌, eq_iff, if◌then◌else◌, inl, inr, Bool-cases,
  false, unwrap_or, ap,
}
use ignited.Prelude.Text.{has, is, replace}
use ignited.Prelude.Assoc
use ignited.Prelude.Assoc.{get-put}
use ignited.Module.Params.{ModParams, normalize_module, get_params, insert, entry_text}

-- No dash is left in a module's name.
pub has-normalize_module : (m : String) → has b'-' (normalize_module m) ≡ false
unfolding normalize_module replace has
has-normalize_module String.[] = refl
has-normalize_module (c ∷ m) = elim (Bool-cases (is b'-' c)) [
  | inl dash ↦ rw dash (has-normalize_module m)
  | inr other ↦ rw other (rw other (has-normalize_module m))
]

normalize_module_of_lacks : (m : String) → has b'-' m ≡ false → normalize_module m ≡ m
unfolding normalize_module replace has
normalize_module_of_lacks String.[] h = refl
normalize_module_of_lacks (c ∷ m) h = elim (Bool-cases (is b'-' c)) [
  | inl dash ↦ ground arith
  | inr other ↦ rw other (ap (λ r. c ∷ r) (normalize_module_of_lacks m (ground arith)))
]

pub normalize_module_idem :
    (m : String) → normalize_module (normalize_module m) ≡ normalize_module m
normalize_module_idem m = normalize_module_of_lacks (normalize_module m) (has-normalize_module m)

pushed :
    (p : ModParams) (k j x : String)
    → unwrap_or (Assoc.get (Assoc.put p k (unwrap_or (Assoc.get p k) [] ++ List.◌∷◌ x [])) j) [] ≡ (
        if k == j
        then unwrap_or (Assoc.get p j) [] ++ List.◌∷◌ x []
        else unwrap_or (Assoc.get p j) [])
pushed p k j x = rw get-put (elim (Bool-cases (k == j)) [
  | inl e ↦ rw e (ap (λ t. unwrap_or (Assoc.get p t) [] ++ List.◌∷◌ x []) ((eq_iff k j).0 e))
  | inr e ↦ rw e
])

-- After an insertion the parameters of a module are those before it, and behind them the new one,
-- if the two module names differ in dashes and underscores only; those of other modules are as
-- before.
pub get_params-insert :
    (p : ModParams) (m param args j : String)
    → get_params (insert p m param args) j ≡ (
        if normalize_module m == normalize_module j
        then get_params p j ++ List.◌∷◌ (entry_text param args) []
        else get_params p j)
unfolding get_params insert
get_params-insert p m param args j =
    pushed p (normalize_module m) (normalize_module j) (entry_text param args)
