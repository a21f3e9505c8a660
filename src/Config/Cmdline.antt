-- ===== src/Config/Cmdline.antt =====
-- `CmdlineArgs::parse_inner` of src/config.rs and the handlers of the keys. One record holds the
-- local variables of the function.
pub mod Keys
pub mod Handlers
pub mod Loop
pub mod Arguments
pub mod Steps
pub mod Notes
pub mod Contents
pub mod Results
pub mod Console
use ignited.Prelude.{ℕ, String, Bool, true, false, Option, none, some, List, [], ◌∷◌, unwrap_or}
use ignited.Prelude.Text.{split_once, split, trim}
use ignited.Prelude.Outcome.{Outcome, ok, err, panic}
use ignited.Logging.{KConsole, VerbosityLevel, default_level}
use ignited.Logging.Buffer.{KmsgBuf, new, flush_with_level}
use ignited.Mount.Source.{UuidCrate, PartitionSourceBuilder}
use ignited.Mount.Options.{FlagsCrate, RootOptsBuilder, builder}
use ignited.Module.Params.{ModParams}
use Keys.{
  Key, key_of, ignited_log, booster_log, booster_debug, quiet, root, resume, init, rootfstype,
  rootflags, ro, rw_key, luks_options, luks_name, luks_uuid, mod_param,
}
use Handlers.{
  parse_ignited_log, parse_booster_debug, parse_quiet, parse_root, parse_resume, parse_init,
  parse_rootfstype, parse_rootflags, parse_rootmode, parse_luks, parse_mod_param,
}

abbrev pub init_default_path : String
init_default_path = "/sbin/init"

pub record CmdlineArgs (Uuid Flags : Type 0) : Type 0 where
  pub init : String
  pub root_opts : RootOptsBuilder Uuid Flags
  pub resume_source : Option (PartitionSourceBuilder Uuid)
  pub mod_params : ModParams

-- The variables of the loop.
pub record Parsing (Uuid Flags : Type 0) : Type 0 where
  pub kmsg_buf : KmsgBuf
  pub verbosity_level : Option VerbosityLevel
  pub init : Option String
  pub root_opts : RootOptsBuilder Uuid Flags
  pub resume_source : Option (PartitionSourceBuilder Uuid)
  pub mod_params : ModParams

-- `arg.split_once('=')`: the key, and the value if there is an equals sign.
abbrev pub key_value : Option (String × String) → String → String × Option String
key_value none arg = (arg, none)
key_value (some (k, v)) arg = (k, some v)

unfoldable pub split_arg : String → String × Option String
unfolding split_once
split_arg arg = key_value (split_once b'=' arg) arg

module _ (u : UuidCrate) (f : FlagsCrate) where
  abbrev pub State : Type 0
  State = Parsing u.Uuid f.Flags

  -- The match on the key. A handler's error leaves the variables as the handler left them.
  unfoldable pub dispatch : Key → String → Option String → State → Outcome (Unit {0}) × State
  unfolding parse_ignited_log parse_booster_debug parse_quiet parse_root parse_resume parse_init
      parse_rootfstype parse_rootflags parse_rootmode parse_luks parse_mod_param
  dispatch ignited_log arg_key value s =
      let (b, v) = parse_ignited_log s.kmsg_buf s.verbosity_level value false in
      (ok tt, record s { kmsg_buf = b; verbosity_level = v })
  dispatch booster_log arg_key value s =
      let (b, v) = parse_ignited_log s.kmsg_buf s.verbosity_level value true in
      (ok tt, record s { kmsg_buf = b; verbosity_level = v })
  dispatch booster_debug arg_key value s =
      let (b, v) = parse_booster_debug s.kmsg_buf s.verbosity_level in
      (ok tt, record s { kmsg_buf = b; verbosity_level = v })
  dispatch quiet arg_key value s =
      (ok tt, record s { verbosity_level = parse_quiet s.verbosity_level })
  dispatch root arg_key value s =
      let (r, b, o) = parse_root u s.kmsg_buf s.root_opts value in
      (r, record s { kmsg_buf = b; root_opts = o })
  dispatch resume arg_key value s =
      let (r, b, o) = parse_resume u s.kmsg_buf s.resume_source value in
      (r, record s { kmsg_buf = b; resume_source = o })
  dispatch init arg_key value s =
      let (r, b, i) = parse_init s.kmsg_buf s.init value in (r, record s { kmsg_buf = b; init = i })
  dispatch rootfstype arg_key value s =
      let (b, o) = parse_rootfstype s.kmsg_buf s.root_opts value in
      (ok tt, record s { kmsg_buf = b; root_opts = o })
  dispatch rootflags arg_key value s =
      let (b, o) = parse_rootflags f s.kmsg_buf s.root_opts value in
      (ok tt, record s { kmsg_buf = b; root_opts = o })
  dispatch ro arg_key value s = (ok tt, record s { root_opts = parse_rootmode s.root_opts false })
  dispatch rw_key arg_key value s =
      (ok tt, record s { root_opts = parse_rootmode s.root_opts true })
  dispatch luks_options arg_key value s = (parse_luks, s)
  dispatch luks_name arg_key value s = (parse_luks, s)
  dispatch luks_uuid arg_key value s = (parse_luks, s)
  dispatch mod_param arg_key value s =
      let (b, p) = parse_mod_param s.kmsg_buf s.mod_params arg_key value in
      (ok tt, record s { kmsg_buf = b; mod_params = p })

  -- One round of the loop.
  unfoldable pub parse_arg : State → String → Outcome (Unit {0}) × State
  unfolding split_arg dispatch key_of
  parse_arg s arg = let (k, v) = split_arg arg in dispatch (key_of k) k v s

  abbrev and_then :
      Outcome (Unit {0}) × State → (State → Outcome (Unit {0}) × State) → Outcome (Unit {0}) × State
  and_then (ok t, s) next = next s
  and_then (err e, s) next = (err e, s)
  and_then (panic, s) next = (panic, s)

  -- The loop; an error or a panic ends it.
  unfoldable pub parse_loop : State → List String → Outcome (Unit {0}) × State
  parse_loop s [] = (ok tt, s)
  parse_loop s (arg ∷ args) = and_then (parse_arg s arg) (λ s'. parse_loop s' args)

  unfoldable pub start : KConsole → State
  unfolding new builder
  start kcon = record {
    kmsg_buf = new kcon;
    verbosity_level = none;
    init = none;
    root_opts = builder u.Uuid f;
    resume_source = none;
    mod_params = [];
  }

  -- Behind the loop: the buffer is flushed and the result built.
  unfoldable pub finish_parse : State → CmdlineArgs u.Uuid f.Flags × KConsole
  unfolding flush_with_level
  finish_parse s = (
    record {
      init = unwrap_or s.init init_default_path;
      root_opts = s.root_opts;
      resume_source = s.resume_source;
      mod_params = s.mod_params;
    },
    (flush_with_level s.kmsg_buf (unwrap_or s.verbosity_level default_level)).inner_con,
  )

  abbrev finished : Outcome (Unit {0}) × State → Outcome (CmdlineArgs u.Uuid f.Flags) × KConsole
  finished (ok t, s) = let (args, kcon) = finish_parse s in (ok args, kcon)
  finished (err e, s) = (err e, s.kmsg_buf.inner_con)
  finished (panic, s) = (panic, s.kmsg_buf.inner_con)

  -- The result, and the console as it is left.
  unfoldable pub parse_inner :
      KConsole → List String → Outcome (CmdlineArgs u.Uuid f.Flags) × KConsole
  unfolding start
  parse_inner kcon args = finished (parse_loop (start kcon) args)
