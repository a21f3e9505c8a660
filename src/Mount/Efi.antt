-- ===== src/Mount/Efi.antt =====
-- `EfiPartitionGptGuid::get_current` and `read_efi_var` of src/mount.rs. The bytes of the variable's
-- file are a parameter, and so is the `uuid` crate.
pub mod Utf16
pub mod Decoding
mod Tests
use ignited.Prelude.{ℕ, ◌+◌, ◌*◌, String, Option, none, some, List, [], ◌∷◌}
use ignited.Prelude.Text.{◌⧺◌}
use ignited.Prelude.Outcome.{Outcome, ok, err, panic}
use ignited.Mount.Source.{UuidCrate, EfiPartitionGptGuid}
use Utf16.{from_utf16}

-- `&data[..4]` and `&data[4..]`: a panic where there are fewer bytes. The first four are a number.
unfoldable pub split_var : List ℕ → Outcome (ℕ × List ℕ)
split_var (a ∷ b ∷ c ∷ d ∷ rest) = ok (a + 256 * b + 65536 * c + 16777216 * d, rest)
split_var _ = panic

unfoldable pub read_efi_var : Outcome (List ℕ) → Outcome (ℕ × List ℕ)
unfolding split_var
read_efi_var (ok bytes) = split_var bytes
read_efi_var (err io) = err ("error while reading EFI variable: " ⧺ io)
read_efi_var panic = panic

-- `chunks(2)`: an odd last byte is a unit of its own.
unfoldable pub units : List ℕ → List ℕ
units [] = []
units (a ∷ []) = a ∷ []
units (a ∷ b ∷ rest) = (a + 256 * b) ∷ units rest

module _ (u : UuidCrate) where
  abbrev guid_of : Option u.Uuid → Outcome (EfiPartitionGptGuid u.Uuid)
  guid_of none = err "error while reading EFI variable: invalid UUID"
  guid_of (some id) = ok (record { guid = id })

  abbrev guid_in : Option String → Outcome (EfiPartitionGptGuid u.Uuid)
  guid_in none = err "error while reading EFI variable: invalid UTF-16"
  guid_in (some text) = guid_of (u.from_str text)

  unfoldable pub get_current : Outcome (List ℕ) → Outcome (EfiPartitionGptGuid u.Uuid)
  unfolding read_efi_var units from_utf16
  get_current file = elim (read_efi_var file) [
    | ok (attr, bytes) ↦ guid_in (from_utf16 (units bytes))
    | err e ↦ err e
    | panic ↦ panic
  ]
