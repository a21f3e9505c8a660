-- ===== src/Mount/Tests.antt =====
-- Runs of the mount options and sources on concrete values.
use ignited.Prelude.{Bool, true, ◌≡◌, refl, none, some, arith}
use ignited.Prelude.Text.{◌⧺◌, split, has}
use ignited.Prelude.Text.Number.{negsuc, show}
use ignited.Mount.Samples.{two_uuids, two_texts, uuid_b, flag_functions, two_uuids_refuse}
use ignited.Mount.Source.{
  PartitionSourceBuilder, label, part_label, part_uuid_partnroff, raw_device, parse, unquote,
}
use ignited.Mount.Source.Render.{render}
use ignited.Mount.Source.RoundTrip.{parse-render}
use ignited.Mount.Source.ByPath.{parse_by_path}
use ignited.Mount.Options.{RootOptsBuilder, MsFlag, add_opts, builder, edit_of, nodev, same}

abbrev third_partition : PartitionSourceBuilder Bool
third_partition = part_uuid_partnroff uuid_b (negsuc 11)

parse-render_example : parse two_uuids "PARTUUID=bb-02/PARTNROFF=-12" ≡ some third_partition
unfolding render show has
parse-render_example =
    parse-render two_uuids two_texts third_partition "PARTUUID=bb-02/PARTNROFF=-12" (ground arith)
      refl

parse_by_path_example :
    (parse two_uuids ("/dev/disk/by-uuid/" ⧺ "aa-01") ≡ none)
    × (parse two_uuids ("/dev/disk/by-partuuid/" ⧺ "aa-01") ≡ none)
    × (parse two_uuids ("/dev/disk/by-label/" ⧺ "aa-01") ≡ some (label ("/" ⧺ "aa-01")))
    × (parse two_uuids ("/dev/disk/by-partlabel/" ⧺ "aa-01") ≡ some (part_label ("/" ⧺ "aa-01")))
parse_by_path_example = parse_by_path two_uuids two_uuids_refuse "aa-01"

abbrev plain : RootOptsBuilder Bool (MsFlag → Bool)
plain = record {
  source = some (raw_device "/dev/sda1");
  fstype = some "ext4";
  is_rw = true;
  flags = λ a. same nodev a;
  options = some "discard";
}

-- The quotes of a UUID are taken off together, or not at all.
unquoted : unquote "\"aa-01\"" ≡ "aa-01"
unfolding unquote
unquoted = refl

half_quoted : unquote "\"aa-01" ≡ "\"aa-01"
unfolding unquote
half_quoted = refl

-- A word of `rootflags=` that is no flag is kept, an empty one too.
empty_word :
    (add_opts flag_functions (builder Bool flag_functions) "ro,,nodev").options ≡ some "ro,"
unfolding add_opts builder split edit_of
empty_word = refl
