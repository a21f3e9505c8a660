-- ===== src/Module/Aliases/Tests.antt =====
-- Runs of the module aliases.
use ignited.Prelude.{
  String, Bool, map, true, ◌≡◌, false, refl, List, [], ◌∷◌, ◌++◌, ◌==◌, concat_map, if◌then◌else◌,
}
use ignited.Module.Aliases.Reading.{PatternText, line_of, try_from_file, try_from_file-line_of}
use ignited.Module.Aliases.{
  GlobCrate, ModAlias, ModAliases, matching, match_alias, match_each, fresh, match_each-fresh,
}
use ignited.Prelude.Outcome.{Outcome, ok, err}
use ignited.Prelude.Text.{has, starts_with}

abbrev whole_names : GlobCrate
whole_names = record { GlobPattern = String; matches = λ pattern alias. pattern == alias }

abbrev two_drivers : ModAliases String
two_drivers = record {
  bookkeeping_processed = "usb:v0001" ∷ [];
  aliases =
      record { pattern = "pci:v8086"; module_name = "e1000e" }
      ∷ record { pattern = "pci:v8086"; module_name = "igb" }
      ∷ [];
}

match_each-fresh_example :
    (match_each whole_names two_drivers ("pci:v8086" ∷ "usb:v0001" ∷ "pci:v8086" ∷ []) []).1
    ≡ []
      ++ concat_map (matching whole_names two_drivers.aliases) (
          fresh whole_names two_drivers.bookkeeping_processed
            ("pci:v8086" ∷ "usb:v0001" ∷ "pci:v8086" ∷ []))
match_each-fresh_example =
    match_each-fresh whole_names two_drivers ("pci:v8086" ∷ "usb:v0001" ∷ "pci:v8086" ∷ []) []

asked_once :
    (match_each whole_names two_drivers ("pci:v8086" ∷ "usb:v0001" ∷ "pci:v8086" ∷ []) []).1
    ≡ "e1000e" ∷ "igb" ∷ []
unfolding match_each match_alias
asked_once = refl

-- Two patterns, with their texts.
abbrev pattern_text : Bool → String
pattern_text true = "pci:*"
pattern_text false = "usb:*"

abbrev two_patterns : GlobCrate
two_patterns = record {
  GlobPattern = Bool;
  matches = λ p alias. starts_with (if p then "pci:" else "usb:") alias;
}

abbrev new_pattern : String → Outcome Bool
new_pattern text =
    if text == "pci:*"
    then ok true
    else if text == "usb:*"
    then ok false
    else err "Pattern syntax error"

abbrev two_texts : PatternText two_patterns new_pattern
unfolding has
two_texts = record {
  print = pattern_text;
  no_space = elim [ true ↦ refl | false ↦ refl ];
  new-print = elim [ true ↦ refl | false ↦ refl ];
}

abbrev three_aliases : List (ModAlias Bool)
three_aliases =
    record { pattern = true; module_name = "e1000e" }
    ∷ record { pattern = false; module_name = "usbhid" }
    ∷ record { pattern = true; module_name = "snd hda" }
    ∷ []

try_from_file-line_of_example :
    try_from_file two_patterns new_pattern
      (ok (map (line_of two_patterns new_pattern two_texts.print) three_aliases))
    ≡ ok (record { bookkeeping_processed = []; aliases = three_aliases })
try_from_file-line_of_example =
    try_from_file-line_of two_patterns new_pattern two_texts three_aliases

no_module :
    try_from_file two_patterns new_pattern (ok (ok "pci:*" ∷ []))
    ≡ err "error while reading module aliases: missing whitespace"
unfolding try_from_file
no_module = refl
