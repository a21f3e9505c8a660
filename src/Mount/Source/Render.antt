-- ===== src/Mount/Source/Render.antt =====
-- The documented notation of a partition source, which `PartitionSourceBuilder::parse` reads, and
-- what it needs of the `uuid` crate.
use ignited.Prelude.{suc, ◌<◌, ◌^◌, String, ◌≡◌, Option, none, some, false}
use ignited.Prelude.Text.{◌⧺◌, has, strip_prefix}
use ignited.Prelude.Text.Number.{ℤ, pos, negsuc, show}
use ignited.Mount.Source.{
  UuidCrate, PartitionSourceBuilder, uuid, label, part_uuid, part_uuid_partnroff, part_type,
  part_label, raw_device,
}

-- A text form of UUIDs that `from_str` reads back, and that holds no quote and no slash, as the
-- hyphenated form of the crate's `Display`.
pub record UuidText (u : UuidCrate) : Type 0 where
  pub print : u.Uuid → String
  pub from_str-print : (id : u.Uuid) → u.from_str (print id) ≡ some id
  pub print_unquoted : (id : u.Uuid) → has b'"' (print id) ≡ false
  pub print_no_slash : (id : u.Uuid) → has b'/' (print id) ≡ false

abbrev pub show_ℤ : ℤ → String
show_ℤ (pos n) = show n
show_ℤ (negsuc n) = "-" ⧺ show (suc n)

-- The numbers of an `i64`.
abbrev pub Fits : ℤ → Type 0
Fits (pos n) = n < 2 ^ 63
Fits (negsuc n) = n < 2 ^ 63

module _ (u : UuidCrate) (t : UuidText u) where
  open t use {print}

  -- The `root=` value of a source; a partition type has none.
  unfoldable pub render : PartitionSourceBuilder u.Uuid → Option String
  render (uuid id) = some ("UUID=" ⧺ print id)
  render (label name) = some ("LABEL=" ⧺ name)
  render (part_uuid id) = some ("PARTUUID=" ⧺ print id)
  render (part_uuid_partnroff id n) = some ("PARTUUID=" ⧺ print id ⧺ "/PARTNROFF=" ⧺ show_ℤ n)
  render (part_type id efi) = none
  render (part_label name) = some ("PARTLABEL=" ⧺ name)
  render (raw_device path) = some path

-- A raw device is a path under /dev outside the four directories that mean something else.
pub record IsRawPath (path : String) : Type 0 where
  pub name : String
  pub under_dev : path ≡ ("/dev/" ⧺ name)
  pub not_uuid : strip_prefix "disk/by-uuid" name ≡ none
  pub not_label : strip_prefix "disk/by-label" name ≡ none
  pub not_partuuid : strip_prefix "disk/by-partuuid" name ≡ none
  pub not_partlabel : strip_prefix "disk/by-partlabel" name ≡ none

abbrev pub IsWritten : {Uuid : Type 0} → PartitionSourceBuilder Uuid → Type 0
IsWritten (part_uuid_partnroff id n) = Fits n
IsWritten (raw_device path) = IsRawPath path
IsWritten _ = Unit
