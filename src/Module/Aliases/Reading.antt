-- ===== src/Module/Aliases/Reading.antt =====
-- The reading of /usr/lib/modules/ignited.alias: `TryFrom` of `ModAliases` in src/module.rs. What the
-- file is opened to and what its lines are read as is a parameter, and so is `Pattern::new` of the
-- `glob` crate.
use mathlib.Core.List.{append_assoc, append-nil}
use ignited.Prelude.{String, false, ◌≡◌, ◌∙◌, ap, sym, Option, none, some, List, [], ◌∷◌, ◌++◌, map}
use ignited.Prelude.Text.{◌⧺◌, has, split_once}
use ignited.Prelude.Text.Laws.{split_once-append}
use ignited.Prelude.Outcome.{Outcome, ok, err, panic}
use ignited.Module.Aliases.{GlobCrate, ModAlias, ModAliases}

abbrev pub reading : String → String
reading io = "error while reading module aliases: " ⧺ io

abbrev missing_whitespace : String
missing_whitespace = "error while reading module aliases: missing whitespace"

module _ (g : GlobCrate) (new : String → Outcome g.GlobPattern) where
  abbrev with_module : String → Outcome g.GlobPattern → Outcome (ModAlias g.GlobPattern)
  with_module m (ok p) = ok (record { pattern = p; module_name = m })
  with_module m (err e) = err ("error while reading module aliases: malformed pattern: " ⧺ e)
  with_module m panic = panic

  abbrev alias_in : Option (String × String) → Outcome (ModAlias g.GlobPattern)
  alias_in none = err missing_whitespace
  alias_in (some (pattern, m)) = with_module m (new pattern)

  -- One round of the loop: the first space is between the pattern and the module.
  unfoldable pub read_line : Outcome String → Outcome (ModAlias g.GlobPattern)
  unfolding split_once
  read_line (ok line) = alias_in (split_once b' ' line)
  read_line (err io) = err (reading io)
  read_line panic = panic

  abbrev pub Aliases : Type 0
  Aliases = ModAliases g.GlobPattern

  abbrev push_alias :
      (List (ModAlias g.GlobPattern) → Outcome Aliases)
      → List (ModAlias g.GlobPattern)
      → Outcome (ModAlias g.GlobPattern)
      → Outcome Aliases
  push_alias rest done (ok a) = rest (done ++ a ∷ [])
  push_alias rest done (err e) = err e
  push_alias rest done panic = panic

  -- The loop, with the aliases read so far.
  unfoldable pub read_lines :
      List (Outcome String) → List (ModAlias g.GlobPattern) → Outcome Aliases
  unfolding read_line
  read_lines [] done = ok (record { bookkeeping_processed = []; aliases = done })
  read_lines (l ∷ ls) done = push_alias (read_lines ls) done (read_line l)

  unfoldable pub try_from_file : Outcome (List (Outcome String)) → Outcome Aliases
  unfolding read_lines
  try_from_file (ok lines) = read_lines lines []
  try_from_file (err io) = err (reading io)
  try_from_file panic = panic

  -- The documented form of a line, `PATTERN MODULE`, for a text form of the patterns.
  abbrev pub line_of : (g.GlobPattern → String) → ModAlias g.GlobPattern → Outcome String
  line_of print a = ok (print a.pattern ⧺ " " ⧺ a.module_name)

  -- Without a space, and read back by `Pattern::new`.
  pub record PatternText : Type 0 where
    pub print : g.GlobPattern → String
    pub no_space : (p : g.GlobPattern) → has b' ' (print p) ≡ false
    pub new-print : (p : g.GlobPattern) → new (print p) ≡ ok p

  read_line-line_of :
      (t : PatternText) (a : ModAlias g.GlobPattern) → read_line (line_of t.print a) ≡ ok a
  unfolding read_line
  read_line-line_of t a =
      ap alias_in (split_once-append _ (t.print a.pattern) a.module_name (t.no_space a.pattern))
      ∙ ap (with_module a.module_name) (t.new-print a.pattern)

  read_lines-line_of :
      (t : PatternText) (aliases done : List (ModAlias g.GlobPattern))
      → read_lines (map (line_of t.print) aliases) done
        ≡ ok (record { bookkeeping_processed = []; aliases = done ++ aliases })
  unfolding read_lines
  read_lines-line_of t [] done =
      ap (λ xs. ok (record { bookkeeping_processed = []; aliases = xs })) (sym (append-nil done))
  read_lines-line_of t (a ∷ others) done =
      ap (push_alias (read_lines (map (line_of t.print) others)) done) (read_line-line_of t a)
      ∙ read_lines-line_of t others (done ++ a ∷ [])
      ∙ ap (λ xs. ok (record { bookkeeping_processed = []; aliases = xs }))
          (append_assoc done (a ∷ []) others)

  -- A file of documented lines is read as its aliases, in order, none of them processed.
  pub try_from_file-line_of :
      (t : PatternText) (aliases : List (ModAlias g.GlobPattern))
      → try_from_file (ok (map (line_of t.print) aliases))
        ≡ ok (record { bookkeeping_processed = []; aliases = aliases })
  unfolding try_from_file
  try_from_file-line_of t aliases = read_lines-line_of t aliases []
