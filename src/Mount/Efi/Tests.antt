-- ===== src/Mount/Efi/Tests.antt =====
-- Variables with the text of a UUID.
use ignited.Prelude.{◌≡◌, refl, ◌∷◌}
use ignited.Prelude.Text.{◌⧺◌}
use ignited.Prelude.Outcome.{ok, err}
use ignited.Mount.Samples.{two_uuids, two_texts, uuid_b}
use ignited.Mount.Efi.{get_current}
use ignited.Mount.Efi.Utf16.{utf16}
use ignited.Mount.Efi.Decoding.{le_bytes, get_current-print}

get_current-print_example :
    get_current two_uuids (ok (6 ∷ 0 ∷ 0 ∷ 0 ∷ le_bytes (utf16 (two_texts.print uuid_b))))
    ≡ ok (record { guid = uuid_b })
get_current-print_example = get_current-print two_uuids two_texts 6 0 0 0 uuid_b

-- A text that is ended by a null character, as EFI texts are, spells no UUID.
ended_text :
    get_current two_uuids (ok (6 ∷ 0 ∷ 0 ∷ 0 ∷ le_bytes (utf16 ("bb-02" ⧺ "\0"))))
    ≡ err "error while reading EFI variable: invalid UUID"
unfolding get_current le_bytes utf16
ended_text = refl
