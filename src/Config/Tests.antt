-- ===== src/Config/Tests.antt =====
-- Runs of the command line's parsing.
use ignited.Prelude.{
  String, Bool, true, false, ◌≡◌, ◌≢◌, refl, some, none, List, [], ◌∷◌, ◌++◌, arith, unwrap_or,
  find_map, concat_map,
}
use ignited.Prelude.Assoc
use ignited.Prelude.Text.{◌⧺◌, split, trim, strip_prefix, replace}
use ignited.Prelude.Text.Number.{pos}
use ignited.Prelude.Outcome.{ok, err}
use ignited.Logging.{KConsole, info}
use ignited.Logging.Visible.{visible_lines}
use ignited.Mount.Source.{raw_device, part_type, parse}
use ignited.Mount.Options.{MsFlag, nodev, edit_of, add_opts}
use ignited.Mount.Options.Words.{joined, other_words}
use ignited.Mount.Options.Effect.{last_word}
use ignited.Mount.Samples.{two_uuids, flag_functions, flag_functions_laws}
use ignited.Module.Params.{get_params, insert}
use ignited.Config.Cmdline.{
  CmdlineArgs, parse_inner, init_default_path, parse_loop, parse_arg, finish_parse,
}
use ignited.Config.Cmdline.Arguments.{by, init_by, root_by, fstype_by, resume_by, verdict_by}
use ignited.Config.Cmdline.Loop.{verdicts}
use ignited.Config.Cmdline.Notes.{notes}
use ignited.Config.Cmdline.Contents.{root_words, params_for}
use ignited.Config.Cmdline.Results.{
  without, without-parse_inner, parse_inner_first, parse_inner_rootflags, parse_inner_params,
}
use ignited.Config.Cmdline.Console.{level_of_all, parse_inner-console, parse_inner-console_failed}
use ignited.Config.Current.{Environment, parse_current}
use ignited.Config.Current.Root.{HasRoot, parse_current-HasRoot}
use ignited.Config.Runtime.{IgnitedConfig}

abbrev kcon : KConsole
kcon = record { handle = []; current_level = info }

abbrev words : List String
words =
    "root=/dev/sda1" ∷ "rootflags=nodev,acl" ∷ "rw" ∷ "rootflags=dev,compress" ∷ "root=LABEL=other"
    ∷ "init=/bin/sh" ∷ "snd-hda.model=auto" ∷ "ro" ∷ "splash" ∷ []

abbrev parsed : CmdlineArgs Bool (MsFlag → Bool)
parsed = record {
  init = "/bin/sh";
  root_opts = record {
    source = some (raw_device "/dev/sda1");
    fstype = none;
    is_rw = false;
    flags =
        flag_functions.remove (flag_functions.insert flag_functions.empty (flag_functions.of nodev))
          (flag_functions.of nodev);
    options = some "acl,compress";
  };
  resume_source = none;
  mod_params = ("snd_hda", "model=auto" ∷ []) ∷ [];
}

words-parsed : (parse_inner two_uuids flag_functions kcon words).0 ≡ ok parsed
unfolding parse_inner parse_loop parse_arg parse strip_prefix finish_parse add_opts insert edit_of
    Assoc.put replace Assoc.get
words-parsed = refl

parse_inner_first_example :
    (parsed.init ≡ unwrap_or (find_map (by init_by) words) init_default_path)
    × (parsed.root_opts.source ≡ find_map (by (root_by two_uuids)) words)
    × (parsed.root_opts.fstype ≡ find_map (by fstype_by) words)
    × (parsed.resume_source ≡ find_map (by (resume_by two_uuids)) words)
parse_inner_first_example = parse_inner_first two_uuids flag_functions kcon words words-parsed

parse_inner_rootflags_example :
    (parsed.root_opts.options ≡ joined none (other_words (concat_map root_words words)))
    × ((a : MsFlag)
        → flag_functions.contains parsed.root_opts.flags a
          ≡ unwrap_or (last_word a (concat_map root_words words)) false)
parse_inner_rootflags_example =
    parse_inner_rootflags two_uuids flag_functions kcon words words-parsed flag_functions_laws

parse_inner_params_example :
    get_params parsed.mod_params "snd-hda" ≡ concat_map (params_for "snd-hda") words
parse_inner_params_example =
    parse_inner_params two_uuids flag_functions kcon words words-parsed "snd-hda"

parse_inner-console_example : (parse_inner two_uuids flag_functions kcon words).1 ≡ record {
  handle =
      []
      ++ visible_lines (level_of_all two_uuids flag_functions kcon words) (concat_map notes words);
  current_level = level_of_all two_uuids flag_functions kcon words;
}
parse_inner-console_example = parse_inner-console two_uuids flag_functions kcon words words-parsed

without-parse_inner_example :
    without (parse_inner two_uuids flag_functions kcon ("quiet" ∷ "resume=swap" ∷ [])).0
    ≡ verdicts two_uuids flag_functions (by (verdict_by two_uuids)) ("quiet" ∷ "resume=swap" ∷ [])
without-parse_inner_example =
    without-parse_inner two_uuids flag_functions kcon ("quiet" ∷ "resume=swap" ∷ [])

abbrev bad_words : List String
bad_words = "ignited.log=debug" ∷ "root=sda1" ∷ []

-- An error of the second argument, behind a message of the first.
bad_words_fail :
    (parse_inner two_uuids flag_functions kcon bad_words).0 ≡ err "unable to parse root key"
unfolding parse_inner parse_loop parse_arg parse strip_prefix
bad_words_fail = refl

bad_words_refused :
    (c : CmdlineArgs Bool (MsFlag → Bool))
    → (parse_inner two_uuids flag_functions kcon bad_words).0 ≢ ok c
bad_words_refused c h = ground (arith, bad_words_fail, h)

parse_inner-console_failed_example : (parse_inner two_uuids flag_functions kcon bad_words).1 ≡ kcon
parse_inner-console_failed_example =
    parse_inner-console_failed two_uuids flag_functions kcon bad_words bad_words_refused

abbrev system : Environment Bool
system = record {
  cmdline = ok "quiet rw\n";
  root_type = true;
  root_type_text = "4f68bce3";
  current_efi = ok (record { guid = false });
  sysctl = record { read = ok "on\n"; open_for_write = ok tt; write_all = ok tt };
  message_text = λ message. "ignited: " ⧺ message;
}

abbrev discovered : CmdlineArgs Bool (MsFlag → Bool)
discovered = record {
  init = "/sbin/init";
  root_opts = record {
    source = some (part_type true (record { guid = false }));
    fstype = none;
    is_rw = true;
    flags = λ a. false;
    options = none;
  };
  resume_source = none;
  mod_params = [];
}

system-discovered : (parse_current two_uuids flag_functions system kcon).0 ≡ ok discovered
unfolding parse_current parse_inner parse_loop parse_arg finish_parse
system-discovered = refl

parse_current-HasRoot_example :
    (buf : String) × (c : CmdlineArgs Bool (MsFlag → Bool)) × (system.cmdline ≡ ok buf)
    × ((parse_inner two_uuids flag_functions kcon (split b' ' (trim buf))).0 ≡ ok c)
    × HasRoot two_uuids flag_functions system c discovered
parse_current-HasRoot_example =
    parse_current-HasRoot two_uuids flag_functions system kcon system-discovered

abbrev thirty_seconds : IgnitedConfig
thirty_seconds = record {
  lvm = false;
  mdraid = false;
  module_force = [];
  mount_timeout = some (pos 30);
}
