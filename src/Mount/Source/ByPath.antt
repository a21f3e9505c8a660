-- ===== src/Mount/Source/ByPath.antt =====
-- Device paths of the form /dev/disk/by-…/<name>, which the documentation lists beside the forms
-- with a key. `_parse` strips the directory without the slash behind it.
use ignited.Prelude.{String, ◌≡◌, refl, none, some}
use ignited.Prelude.Text.{◌⧺◌, strip_prefix}
use ignited.Mount.Source.{UuidCrate, label, part_label, parse_uuid, parse_partuuid, parse}

-- For a `from_str` that refuses every text with a slash in front, as no form of a UUID has one:
-- whatever stands for the UUID, both paths are refused, and the names in the two others are read
-- with a slash in front.
pub parse_by_path :
    (u : UuidCrate)
    → ((s : String) → u.from_str ("/" ⧺ s) ≡ none)
    → (s : String)
    → (parse u ("/dev/disk/by-uuid/" ⧺ s) ≡ none)
      × (parse u ("/dev/disk/by-partuuid/" ⧺ s) ≡ none)
      × (parse u ("/dev/disk/by-label/" ⧺ s) ≡ some (label ("/" ⧺ s)))
      × (parse u ("/dev/disk/by-partlabel/" ⧺ s) ≡ some (part_label ("/" ⧺ s)))
unfolding parse strip_prefix parse_uuid parse_partuuid
parse_by_path u refuses s = (rw (refuses s), rw (refuses s), refl, refl)
