-- ===== src/Module/Params.antt =====
-- `ModParams` of src/module.rs: the parameters that the command line gives for kernel modules.
pub mod Laws
use ignited.Prelude.{String, Option, List, [], ◌∷◌, ◌++◌, unwrap_or}
use ignited.Prelude.Text.{◌⧺◌, replace}
use ignited.Prelude.Assoc
use ignited.Prelude.Assoc.{Map}

abbrev pub ModParams : Type 0
ModParams = Map (List String)

-- Dashes become underscores.
unfoldable pub normalize_module : String → String
normalize_module m = replace b'-' "_" m

-- `get_params` with `_get_params`
unfoldable pub get_params : ModParams → String → List String
unfolding normalize_module
get_params p m = unwrap_or (Assoc.get p (normalize_module m)) []

abbrev pub entry_text : String → String → String
entry_text param args = param ⧺ "=" ⧺ args

-- `insert` with `_insert`
unfoldable pub insert : ModParams → String → String → String → ModParams
unfolding normalize_module
insert p m param args =
    let key = normalize_module m in
    Assoc.put p key (unwrap_or (Assoc.get p key) [] ++ entry_text param args ∷ [])
