-- ===== src/Config/Current/Root.antt =====
-- The root source that `CmdlineArgs::parse_current` settles on.
use ignited.Prelude.{String, ◌≡◌, refl, ◌⊎◌, none, some, arith, Option-cases, inl, inr}
use ignited.Prelude.Text.{split, trim}
use ignited.Prelude.Outcome.{Outcome, ok, err, panic, Outcome-cases}
use ignited.Logging.{KConsole}
use ignited.Mount.Source.{UuidCrate, PartitionSourceBuilder, EfiPartitionGptGuid, part_type}
use ignited.Mount.Options.{FlagsCrate}
use ignited.Config.Cmdline.{parse_inner}
use ignited.Config.Current.{Environment, Args, with_root, after_parse, parse_current}

module _ (u : UuidCrate) (f : FlagsCrate) (env : Environment u.Uuid) where
  -- The result is what was parsed, with a root source: the parsed one, or else the discovered
  -- partition.
  abbrev pub HasRoot : Args u f env → Args u f env → Type 0
  HasRoot parsed result =
      (src : PartitionSourceBuilder u.Uuid) × (result
        ≡ record parsed { root_opts = record parsed.root_opts { source = some src } })
      × ((parsed.root_opts.source ≡ some src)
          ⊎ ((parsed.root_opts.source ≡ none)
              × ((guid : EfiPartitionGptGuid u.Uuid) × (env.current_efi ≡ ok guid)
                  × (src ≡ part_type env.root_type guid))))

  with_root-HasRoot :
      (c : Args u f env) (kcon : KConsole) {args : Args u f env}
      → (with_root u f env c kcon).0 ≡ ok args
      → HasRoot c args
  unfolding with_root
  with_root-HasRoot c kcon h = elim (Option-cases c.root_opts.source) [
    | inr (src, given) ↦ (src, ground arith, inl given)
    | inl missing ↦ elim (Outcome-cases env.current_efi) [
      | inl (guid, found) ↦
          (part_type env.root_type guid, ground arith, inr (missing, (guid, found, refl)))
      | inr (inl (e, failed)) ↦ absurd (ground arith)
      | inr (inr failed) ↦ absurd (ground arith)
    ]
  ]

  after_parse-HasRoot :
      (r : Outcome (Args u f env) × KConsole) {args : Args u f env}
      → (after_parse u f env r).0 ≡ ok args
      → (c : Args u f env) × (r.0 ≡ ok c) × HasRoot c args
  after_parse-HasRoot (ok c, kcon) h = (c, refl, with_root-HasRoot c kcon h)
  after_parse-HasRoot (err e, kcon) h = cc
  after_parse-HasRoot (panic, kcon) h = cc

  -- If the arguments are read, the result is that of parsing the words of /proc/cmdline, and has a
  -- root source: the one that was given, or else the partition type of the architecture with the
  -- GUID of the booted EFI partition. Nothing else is changed.
  pub parse_current-HasRoot :
      (kcon : KConsole) {args : Args u f env}
      → (parse_current u f env kcon).0 ≡ ok args
      → (buf : String) × (c : Args u f env) × (env.cmdline ≡ ok buf)
        × ((parse_inner u f kcon (split b' ' (trim buf))).0 ≡ ok c)
        × HasRoot c args
  unfolding parse_current
  parse_current-HasRoot kcon h = elim (Outcome-cases env.cmdline) [
    | inl (buf, read) ↦
        let (c, parsed, root) =
          after_parse-HasRoot (parse_inner u f kcon (split b' ' (trim buf)))
            (rw (parse_current, read) at h) in
        (buf, c, read, parsed, root)
    | inr (inl (e, failed)) ↦ absurd (ground arith)
    | inr (inr failed) ↦ absurd (ground arith)
  ]
