-- ===== src/Module/Aliases.antt =====
-- `ModAlias` and `ModAliases` of src/module.rs, and `ModLoading::load_modalias`. The patterns of the
-- `glob` crate are a parameter; the `DashSet` of the aliases that were seen is a list.
pub mod Reading
mod Tests
use mathlib.Core.List.{append_assoc, append-nil}
use ignited.Prelude.{
  ℕ, String, Bool, true, false, ◌≡◌, ◌∙◌, sym, ap, Option, none, some, List, [], ◌∷◌, ◌++◌,
  Bool-cases, inl, inr, concat_map, if◌then◌else◌,
}
use mathlib.Core.Option
use ignited.Config.Runtime.{InitramfsMetadata}
use ignited.Module.Loading.{Loader, contains}
use ignited.Module.Loading.Steps.{load_modules}

pub record GlobCrate : Type 1 where
  pub GlobPattern : Type 0
  pub matches : GlobPattern → String → Bool

pub record ModAlias (Pattern : Type 0) : Type 0 where
  pub pattern : Pattern
  pub module_name : String

pub record ModAliases (Pattern : Type 0) : Type 0 where
  pub bookkeeping_processed : List String
  pub aliases : List (ModAlias Pattern)

module _ (g : GlobCrate) where
  -- `ModAlias::match_alias`
  unfoldable pub match_one : ModAlias g.GlobPattern → String → Option String
  match_one a alias = if g.matches a.pattern alias then some a.module_name else none

  abbrev push_match : Option String → List String → List String
  push_match none rest = rest
  push_match (some m) rest = m ∷ rest

  -- The modules of the aliases that match, in their order.
  unfoldable pub matching : List (ModAlias g.GlobPattern) → String → List String
  unfolding match_one
  matching [] alias = []
  matching (a ∷ others) alias = push_match (match_one a alias) (matching others alias)

  -- `ModAliases::match_alias`: an alias that was seen before gives nothing.
  unfoldable pub match_alias :
      ModAliases g.GlobPattern → String → List String → ModAliases g.GlobPattern × List String
  unfolding matching contains
  match_alias s alias modules = if contains s.bookkeeping_processed alias then (s, modules) else (
    record s { bookkeeping_processed = alias ∷ s.bookkeeping_processed },
    modules ++ matching s.aliases alias,
  )

  -- `_load_modalias`: the result is the group to wait for, if there is a module to load.
  abbrev load_matching : InitramfsMetadata → ℕ → List String → Loader → Option (Option ℕ × Loader)
  load_matching meta n [] st = some (none, st)
  load_matching meta n (m ∷ ms) st =
      Option.map (λ st'. (some st.next_wg, st')) (load_modules meta n (m ∷ ms) st)

  unfoldable pub load_modalias :
      InitramfsMetadata
      → ℕ
      → ModAliases g.GlobPattern
      → String
      → Loader
      → ModAliases g.GlobPattern × Option (Option ℕ × Loader)
  unfolding match_alias load_modules
  load_modalias meta n s alias st =
      let (s', modules) = match_alias s alias [] in (s', load_matching meta n modules st)

  -- A series of aliases, as the devices give them.
  unfoldable pub match_each :
      ModAliases g.GlobPattern → List String → List String → ModAliases g.GlobPattern × List String
  match_each s [] modules = (s, modules)
  match_each s (alias ∷ rest) modules =
      let (s', modules') = match_alias s alias modules in match_each s' rest modules'

  -- The aliases that are in a list for the first time and not seen before.
  unfoldable pub fresh : List String → List String → List String
  unfolding contains
  fresh seen [] = []
  fresh seen (alias ∷ rest) =
      let again = fresh seen rest in
      let first = alias ∷ fresh (alias ∷ seen) rest in if contains seen alias then again else first

  match_alias_seen :
      (s : ModAliases g.GlobPattern) (alias : String) (modules : List String)
      → contains s.bookkeeping_processed alias ≡ true
      → match_alias s alias modules ≡ (s, modules)
  unfolding match_alias
  match_alias_seen s alias modules seen = rw seen

  match_alias_new :
      (s : ModAliases g.GlobPattern) (alias : String) (modules : List String)
      → contains s.bookkeeping_processed alias ≡ false
      → match_alias s alias modules ≡ (
        record s { bookkeeping_processed = alias ∷ s.bookkeeping_processed },
        modules ++ matching s.aliases alias,
      )
  unfolding match_alias
  match_alias_new s alias modules new = rw new

  -- However often the devices give an alias, its modules are asked for once: over a series the
  -- modules of each fresh alias that match are put behind those that were there, in order.
  pub match_each-fresh :
      (s : ModAliases g.GlobPattern) (given modules : List String)
      → (match_each s given modules).1
        ≡ modules ++ concat_map (matching s.aliases) (fresh s.bookkeeping_processed given)
  unfolding match_each fresh
  match_each-fresh s [] modules = sym (append-nil modules)
  match_each-fresh s (alias ∷ rest) modules =
      let later : ModAliases g.GlobPattern × List String → List String =
        λ r. (match_each r.0 rest r.1).1 in
      elim (Bool-cases (contains s.bookkeeping_processed alias)) [
        | inl seen ↦
            ap later (match_alias_seen s alias modules seen)
            ∙ rw seen (match_each-fresh s rest modules)
        | inr new ↦
            ap later (match_alias_new s alias modules new)
            ∙ rw new (
                match_each-fresh
                  (record s { bookkeeping_processed = alias ∷ s.bookkeeping_processed }) rest
                  (modules ++ matching s.aliases alias)
                ∙ append_assoc modules (matching s.aliases alias) _)
      ]
