-- ===== src/Vconsole/Keymap/Length.antt =====
-- How long the file has to be for `load_keymap_file`.
use ignited.Prelude.{
  ℕ, zero, suc, ◌+◌, ◌*◌, ◌≤◌, ◌<◌, true, ◌≡◌, ◌↔◌, refl, ap, List, [], ◌∷◌, arith, eqb, ltb, leb,
  length, Bool-cases, inl, inr,
}
use ignited.Prelude.Outcome.{ok, panic, Outcome-cases}
use ignited.Prelude.Run.{go_on_panic}
use ignited.Vconsole.Keymap.{
  KbEntry, KeymapCalls, entry_at, first_bytes, load_keys, load_tables, load_blob,
}
use ignited.Vconsole.Keymap.Entries.{count, keys_from, told, load_keys-told, load_blob-told}

first_bytes-length :
    (n : ℕ) (bytes : List ℕ) {first : List ℕ} → first_bytes n bytes ≡ ok first → n ≤ length bytes
unfolding first_bytes
first_bytes-length zero bytes h = omega arith
first_bytes-length (suc n) [] h = cc
first_bytes-length (suc n) (b ∷ bytes) h = elim (Outcome-cases (first_bytes n bytes)) [
  | inl (bs, e) ↦ let more = first_bytes-length n bytes e in omega arith
  | inr (inl (io, e)) ↦ absurd (ground (arith, h, e))
  | inr (inr e) ↦ absurd (ground (arith, h, e))
]

module _ {Tree : Type 0} (calls : KeymapCalls Tree)
    (takes : (ke : KbEntry) (t : Tree) → (calls.kdskbent ke t).0 ≡ true) where
  load_keys_short :
      (base len i left j pos : ℕ) (t : Tree)
      → pos ≤ suc len
      → suc len < pos + 2 * left
      → (load_keys calls base len i left j pos t).0 ≡ panic
  unfolding load_keys
  load_keys_short base len i zero j pos t below short = absurd (omega arith)
  load_keys_short base len i (suc left) j pos t below short = elim (Bool-cases (ltb pos len)) [
    | inr outside ↦ rw (load_keys, outside) refl
    | inl inside ↦
        rw (load_keys, inside, takes (entry_at base i j pos) t)
          (load_keys_short base len i left (suc j) (pos + 2)
            (calls.kdskbent (entry_at base i j pos) t).1 (ground arith) (omega arith))
  ]

  load_tables_short :
      (base len : ℕ) (enabled : List ℕ) (i pos : ℕ) (t : Tree)
      → pos ≤ suc len
      → suc len < pos + 256 * count enabled
      → (load_tables calls base len enabled i pos t).0 ≡ panic
  unfolding load_tables count
  load_tables_short base len [] i pos t below short = absurd (omega arith)
  load_tables_short base len (e ∷ es) i pos t below short = elim (Bool-cases (eqb e 1)) [
    | inr off ↦ rw off (load_tables_short base len es (suc i) pos t below (rw off at short))
    | inl on ↦
        let short' : suc len < pos + 256 * suc (count es) = rw (count, on) at short in
        elim (Bool-cases (leb (pos + 256) (suc len))) [
          | inl more ↦
              rw (on, load_keys-told calls takes base len i 128 0 pos t (ground arith))
                (load_tables_short base len es (suc i) (pos + 256)
                  (told calls (keys_from base i 128 0 pos) t) (ground arith) (omega arith))
          | inr less ↦ rw on (
              go_on_panic (load_tables calls base len es (suc i))
                (load_keys calls base len i 128 0 pos t)
                (load_keys_short base len i 128 0 pos t below (ground arith)))
        ]
  ]

  load_blob_short :
      (base : ℕ) (enabled blob : List ℕ) (t : Tree)
      → first_bytes 256 blob ≡ ok enabled
      → suc (length blob) < 256 + 256 * count enabled
      → (load_blob calls base blob t).0 ≡ panic
  unfolding load_blob
  load_blob_short base enabled blob t first short =
      let long = first_bytes-length 256 blob first in
      rw (load_blob, first)
        (load_tables_short base (length blob) enabled 0 256 t (omega arith) short)

  -- If the kernel takes every entry, a file whose first 256 bytes were read is loaded exactly if it
  -- has the bytes of all enabled tables, the last one aside; a shorter file makes the program panic.
  pub load_blob_iff :
      (base : ℕ) (enabled blob : List ℕ) (t : Tree)
      → first_bytes 256 blob ≡ ok enabled
      → ((load_blob calls base blob t).0 ≡ ok tt ↔ 256 + 256 * count enabled ≤ suc (length blob))
        × ((load_blob calls base blob t).0 ≡ panic ↔ suc (length blob) < 256 + 256 * count enabled)
  load_blob_iff base enabled blob t first =
      elim (Bool-cases (leb (256 + 256 * count enabled) (suc (length blob)))) [
        | inl long ↦
            let loaded =
              ap (λ r. r.0) (load_blob-told calls takes base enabled blob t first (ground arith)) in
            ((λ h. ground arith, λ h. loaded), (λ h. cc, λ h. absurd (ground arith)))
        | inr short ↦
            let failed = load_blob_short base enabled blob t first (ground arith) in
            ((λ h. cc, λ h. absurd (ground arith)), (λ h. ground arith, λ h. failed))
      ]
