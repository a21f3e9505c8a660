-- ===== src/Config/Current.antt =====
-- `CmdlineArgs::parse_current` of src/config.rs and `PartitionSourceBuilder::autodiscover_root` of
-- src/mount.rs. What they read from outside is a parameter: the text of /proc/cmdline, the GUID of
-- the booted EFI partition, and the answers about the kernel's log setting.
pub mod Root
use ignited.Prelude.{
  ℕ, String, ◌≡◌, refl, ◌≢◌, ◌∙◌, ap, Option, none, some, List, [], ◌∷◌, arith, or_else,
  Option-cases, inl, inr,
}
use ignited.Prelude.Text.{◌⧺◌, split, trim}
use ignited.Prelude.Outcome.{Outcome, ok, err, panic, Outcome-cases}
use ignited.Logging.{KConsole, VerbosityLevel, info, print_message_ln}
use ignited.Logging.Throttling.{SysctlAnswers, disable_throttling_on_verbose}
use ignited.Mount.Source.{UuidCrate, PartitionSourceBuilder, EfiPartitionGptGuid, part_type}
use ignited.Mount.Options.{FlagsCrate, RootOptsBuilder, source, get_source}
use ignited.Config.Cmdline.{CmdlineArgs, parse_inner}

-- What the two functions are given by the system and by the build.
pub record Environment (Uuid : Type 0) : Type 0 where
  pub cmdline : Outcome String
  pub root_type : Uuid
  pub root_type_text : String
  pub current_efi : Outcome (EfiPartitionGptGuid Uuid)
  pub sysctl : SysctlAnswers
  -- What is printed for an error with this message.
  pub message_text : String → String

unfoldable pub autodiscover_root :
    {Uuid : Type 0} → Environment Uuid → KConsole → Outcome (PartitionSourceBuilder Uuid) × KConsole
autodiscover_root env kcon = (
  elim env.current_efi [
    | ok guid ↦ ok (part_type env.root_type guid)
    | err e ↦ err e
    | panic ↦ panic
  ],
  print_message_ln kcon info (
      "root= param is not specified. Using GPT partition autodiscovery with guid type "
      ⧺ env.root_type_text),
)

-- The end: an error about the log setting is logged and forgotten.
unfoldable pub report_throttling : (String → String) → KConsole → Outcome (Unit {0}) → KConsole
report_throttling printed kcon (ok t) = kcon
report_throttling printed kcon (err e) = print_message_ln kcon info (printed e)
report_throttling printed kcon panic = kcon

module _ (u : UuidCrate) (f : FlagsCrate) (env : Environment u.Uuid) where
  abbrev pub Args : Type 0
  Args = CmdlineArgs u.Uuid f.Flags

  abbrev ending : Args → KConsole → Outcome Args × KConsole
  ending args kcon = (
    ok args,
    report_throttling env.message_text kcon (disable_throttling_on_verbose kcon env.sysctl).0,
  )

  abbrev set_root :
      Args → Outcome (PartitionSourceBuilder u.Uuid) × KConsole → Outcome Args × KConsole
  set_root args (ok src, kcon) = ending (record args { root_opts = source args.root_opts src }) kcon
  set_root args (err e, kcon) = (err e, kcon)
  set_root args (panic, kcon) = (panic, kcon)

  -- A missing root source is looked for.
  unfoldable pub with_root : Args → KConsole → Outcome Args × KConsole
  unfolding get_source source autodiscover_root report_throttling
  with_root args kcon = elim (get_source args.root_opts) [
    | some src ↦ ending args kcon
    | none ↦ set_root args (autodiscover_root env kcon)
  ]

  abbrev after_parse : Outcome Args × KConsole → Outcome Args × KConsole
  after_parse (ok args, kcon) = with_root args kcon
  after_parse (err e, kcon) = (err e, kcon)
  after_parse (panic, kcon) = (panic, kcon)

  unfoldable pub parse_current : KConsole → Outcome Args × KConsole
  unfolding split trim with_root
  parse_current kcon = elim env.cmdline [
    | ok buf ↦ after_parse (parse_inner u f kcon (split b' ' (trim buf)))
    | err io ↦ (err ("error while reading config: " ⧺ io), kcon)
    | panic ↦ (panic, kcon)
  ]
