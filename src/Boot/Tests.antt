-- ===== src/Boot/Tests.antt =====
-- Runs of the program on a system without a configuration.
use ignited.Prelude.{
  ℕ, ◌≡◌, refl, arith, none, some, [], ◌∷◌, ◌++◌, List, String, Bool, true, false, find_map, All,
}
use ignited.Prelude.Text.{◌⧺◌, strip_prefix}
use ignited.Prelude.Text.Number.{show}
use ignited.Prelude.Outcome.{ok}
use ignited.Logging.{KConsole, crit, entry_line, println, print_message_ln}
use ignited.Config.Cmdline.{CmdlineArgs, parse_arg, parse_loop, finish_parse, parse_inner}
use ignited.Config.Current.{Environment, parse_current}
use ignited.Mount.Source.{part_type}
use ignited.Mount.Samples.{two_uuids, flag_functions}
use ignited.Mount.Options.{MsFlag}
use ignited.Time.{InitramfsTimer}
use ignited.Util.Shell.{returned, spawn_emergency_shell}
use ignited.Boot.Exit.{◌>>=◌, ◌>>◌, bail, pure, exit, handed_over}
use ignited.Boot.Evloop.{PollAnswer, interrupted, tokens, evloop, verdict, evloop-verdict}
use ignited.Boot.Target.{exec_target_init}
use ignited.Boot.Init.{init}
use ignited.Boot.Main.{NoBoot, exited, after_init, main, main-NoBoot, kcrit}
use ignited.Boot.Report.{report, after_init_early}
use ignited.Boot.Switched.{Switched}
use ignited.Boot.CStrings.{IsCString, exec_target_init-IsCString}
use ignited.Boot.Samples.{no_config, kcon, at_start}

abbrev timer : InitramfsTimer
timer = record { realtime = ok 1650000000000000; monotonic = ok 3000000 }

config_missing :
    (init no_config timer at_start).0
    ≡ exit 4 "error while reading config: No such file or directory"
unfolding init ◌>>=◌ ◌>>◌ bail pure
config_missing = refl

abbrev message : String
message = "error while reading config: No such file or directory"

abbrev left : KConsole
left = record kcon {
  handle =
      entry_line crit ("ignited: " ⧺ message)
      ∷ entry_line crit "attempting to spawn emergency shell"
      ∷ entry_line crit "unable to execute /bin/busybox: No such file or directory"
      ∷ entry_line crit "ignited: unable to execute /bin/toybox: Permission denied"
      ∷ [];
}

no_shell :
    spawn_emergency_shell no_config.enoent_text no_config.exec_busybox no_config.exec_toybox
      (kcrit no_config ("ignited: " ⧺ message) kcon)
    ≡ returned left
unfolding spawn_emergency_shell print_message_ln println
no_shell = refl

after_init_early_example :
    ((after_init no_config (init no_config timer at_start)).0 ≡ exited 4)
    × ((after_init no_config (init no_config timer at_start)).1.0
        ≡ kcon.handle ++ report no_config ("ignited: " ⧺ message))
after_init_early_example =
    after_init_early no_config timer at_start 4 message left config_missing (omega arith) no_shell

main-NoBoot_example : NoBoot (main no_config 0).0
main-NoBoot_example = main-NoBoot no_config 0

abbrev args : CmdlineArgs Bool (MsFlag → Bool)
args = record {
  init = "/systemd";
  root_opts = record {
    source = none;
    fstype = none;
    is_rw = false;
    flags = λ a. false;
    options = none;
  };
  resume_source = none;
  mod_params = [];
}

abbrev argv : List String
argv = "/systemd" ∷ "--switched-root" ∷ "--system" ∷ "--deserialize" ∷ "3" ∷ []

-- The command line that these arguments are read from; the root is looked for.
abbrev init_given : Environment Bool
init_given = record {
  cmdline = ok "init=/systemd\n";
  root_type = true;
  root_type_text = "aa-01";
  current_efi = ok (record { guid = false });
  sysctl = record { read = ok "off\n"; open_for_write = ok tt; write_all = ok tt };
  message_text = λ message. "ignited: " ⧺ message;
}

abbrev read_args : CmdlineArgs Bool (MsFlag → Bool)
read_args = record args {
  root_opts = record args.root_opts { source = some (part_type true (record { guid = false })) };
}

init_given-read : (parse_current two_uuids flag_functions init_given kcon).0 ≡ ok read_args
unfolding parse_current parse_inner parse_loop parse_arg finish_parse
init_given-read = refl

read_hands_over :
    (exec_target_init no_config timer read_args at_start).0 ≡ handed_over "/systemd" argv
unfolding exec_target_init ◌>>=◌ ◌>>◌ bail pure strip_prefix show
read_hands_over = refl

exec_target_init-IsCString_example : All IsCString ("/systemd" ∷ argv)
exec_target_init-IsCString_example =
    exec_target_init-IsCString no_config init_given kcon timer read_args at_start "/systemd" argv
      init_given-read read_hands_over

-- The timeout of a second is over at the second poll, which is made all the same.
abbrev late : List (PollAnswer × ℕ)
late = (interrupted, 2000) ∷ (tokens (7 ∷ []), 9000000000) ∷ (tokens (7 ∷ 10 ∷ []), 9000000001) ∷ []

evloop-verdict_example : evloop 1000 (some 1000000000) 1000 late ≡ find_map (λ a. verdict a.0) late
evloop-verdict_example =
    evloop-verdict 1000 (some 1000000000) late (omega arith, (omega arith, (omega arith, tt)))

late_ends : evloop 1000 (some 1000000000) 1000 late ≡ some (ok tt)
unfolding evloop
late_ends = refl
