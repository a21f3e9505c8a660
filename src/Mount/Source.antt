-- ===== src/Mount/Source.antt =====
-- `PartitionSourceBuilder` of src/mount.rs: the value of `root=` and `resume=`. The `uuid` crate is a
-- parameter: its type, and its `from_str`.
pub mod Render
pub mod RoundTrip
pub mod ByPath
use ignited.Prelude.{ℕ, String, Option, none, some, if◌then◌else◌}
use ignited.Prelude.Text.{strip_prefix, strip_last, split_once_at, starts_with}
use ignited.Prelude.Text.Number.{ℤ, i64_from_str}
use ignited.Prelude.{or_else, unwrap_or}
use mathlib.Core.Option

pub record UuidCrate : Type 1 where
  pub Uuid : Type 0
  pub from_str : String → Option Uuid

-- `EfiPartitionGptGuid`
pub record EfiPartitionGptGuid (Uuid : Type 0) : Type 0 where
  pub guid : Uuid

pub data PartitionSourceBuilder (Uuid : Type 0) : Type 0 where
  uuid : Uuid → PartitionSourceBuilder Uuid
  label : String → PartitionSourceBuilder Uuid
  part_uuid : Uuid → PartitionSourceBuilder Uuid
  part_uuid_partnroff : Uuid → ℤ → PartitionSourceBuilder Uuid
  part_type : Uuid → EfiPartitionGptGuid Uuid → PartitionSourceBuilder Uuid
  part_label : String → PartitionSourceBuilder Uuid
  raw_device : String → PartitionSourceBuilder Uuid

-- The quotes around a UUID, if there is one at either end.
unfoldable pub unquote : String → String
unfolding Option.bind strip_prefix strip_last
unquote q = unwrap_or (Option.bind (strip_prefix "\"" q) (strip_last b'"')) q

module _ (u : UuidCrate) where
  open u use {Uuid, from_str}

  unfoldable pub uuid_from_str : String → Option Uuid
  unfolding unquote
  uuid_from_str q = from_str (unquote q)

  unfoldable pub parse_uuid : String → Option (PartitionSourceBuilder Uuid)
  unfolding uuid_from_str
  parse_uuid s = Option.map uuid (uuid_from_str s)

  unfoldable pub parse_partuuid : String → Option (PartitionSourceBuilder Uuid)
  unfolding uuid_from_str
  parse_partuuid s = Option.map part_uuid (uuid_from_str s)

  -- The number is read first, then the UUID.
  unfoldable pub parse_partuuid_partnroff : String → Option (PartitionSourceBuilder Uuid)
  unfolding uuid_from_str parse_partuuid Option.bind
  parse_partuuid_partnroff s = elim (split_once_at "/PARTNROFF=" s) [
    | some (partuuid, partnroff) ↦
        Option.bind (i64_from_str partnroff)
          (λ n. Option.map (λ id. part_uuid_partnroff id n) (uuid_from_str partuuid))
    | none ↦ parse_partuuid s
  ]

  -- The branches behind the two that name a filesystem.
  parse_gpt : String → Option (PartitionSourceBuilder Uuid)
  parse_gpt root = elim (strip_prefix "PARTUUID=" root) [
    | some partuuid_partnroff ↦ parse_partuuid_partnroff partuuid_partnroff
    | none ↦ elim (strip_prefix "/dev/disk/by-partuuid" root) [
      | some partuuid ↦ parse_partuuid partuuid
      | none ↦
          elim (or_else (strip_prefix "PARTLABEL=" root)
            (strip_prefix "/dev/disk/by-partlabel" root)) [
              | some partlabel ↦ some (part_label partlabel)
              | none ↦ if starts_with "/dev/" root then some (raw_device root) else none
            ]
    ]
  ]

  -- `_parse`, the body of `PartitionSourceBuilder::parse`.
  unfoldable pub parse : String → Option (PartitionSourceBuilder Uuid)
  unfolding parse_gpt
  parse root = elim (or_else (strip_prefix "UUID=" root) (strip_prefix "/dev/disk/by-uuid" root)) [
    | some id ↦ parse_uuid id
    | none ↦ elim (or_else (strip_prefix "LABEL=" root) (strip_prefix "/dev/disk/by-label" root)) [
      | some name ↦ some (label name)
      | none ↦ parse_gpt root
    ]
  ]
