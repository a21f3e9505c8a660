-- ===== src/Mount/Efi/Decoding.antt =====
-- What `get_current` reads from a variable.
use ignited.Prelude.{
  ℕ, ◌/◌, ◌%◌, ◌<◌, String, ◌≡◌, ◌≢◌, ◌↔◌, refl, ap, ◌∙◌, Option, none, some, List, [], ◌∷◌, arith,
  length, Option-cases, inl, inr,
}
use ignited.Prelude.Outcome.{ok, panic}
use ignited.Mount.Source.{UuidCrate}
use ignited.Mount.Source.Render.{UuidText}
use ignited.Mount.Efi.{units, guid_of, guid_in, get_current}
use ignited.Mount.Efi.Utf16.{from_utf16, utf16, from_utf16-utf16}

-- Units as bytes, the low one first.
unfoldable pub le_bytes : List ℕ → List ℕ
le_bytes [] = []
le_bytes (u ∷ us) = (u % 256) ∷ (u / 256) ∷ le_bytes us

units-le_bytes : (us : List ℕ) → units (le_bytes us) ≡ us
unfolding units le_bytes
units-le_bytes [] = refl
units-le_bytes (u ∷ us) = ground (arith, units-le_bytes us)

module _ (u : UuidCrate) where
  -- A variable whose data are a text in UTF-16, behind any four bytes of attributes, gives the UUID
  -- that the text spells, and an error if it spells none: a character that ends the text is part of
  -- what has to spell it.
  pub get_current-utf16 :
      (a b c d : ℕ) (text : String)
      → get_current u (ok (a ∷ b ∷ c ∷ d ∷ le_bytes (utf16 text))) ≡ guid_of u (u.from_str text)
  unfolding get_current
  get_current-utf16 a b c d text =
      ap (λ us. guid_in u (from_utf16 us)) (units-le_bytes (utf16 text))
      ∙ ap (guid_in u) (from_utf16-utf16 text)

  -- For a text form that `from_str` reads back, the UUID that was written is the one that is read.
  pub get_current-print :
      (t : UuidText u) (a b c d : ℕ) (id : u.Uuid)
      → get_current u (ok (a ∷ b ∷ c ∷ d ∷ le_bytes (utf16 (t.print id))))
        ≡ ok (record { guid = id })
  get_current-print t a b c d id =
      get_current-utf16 a b c d (t.print id) ∙ ap (guid_of u) (t.from_str-print id)

  guid_in_ends : (o : Option String) → guid_in u o ≢ panic
  guid_in_ends none h = cc
  guid_in_ends (some text) h = elim (Option-cases (u.from_str text)) [
    | inl e ↦ cc
    | inr (id, e) ↦ cc
  ]

  -- A variable that was read panics exactly if it has fewer than four bytes.
  pub get_current-panic : (bytes : List ℕ) → (get_current u (ok bytes) ≡ panic) ↔ (length bytes < 4)
  unfolding get_current
  get_current-panic (a ∷ b ∷ c ∷ d ∷ rest) =
      (λ h. absurd (guid_in_ends (from_utf16 (units rest)) h), λ h. absurd (omega arith))
  get_current-panic [] = (λ h. omega arith, λ h. refl)
  get_current-panic (a ∷ []) = (λ h. omega arith, λ h. refl)
  get_current-panic (a ∷ b ∷ []) = (λ h. omega arith, λ h. refl)
  get_current-panic (a ∷ b ∷ c ∷ []) = (λ h. omega arith, λ h. refl)
