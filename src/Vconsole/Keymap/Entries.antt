-- ===== src/Vconsole/Keymap/Entries.antt =====
-- What the kernel is told by `load_keymap_file`.
use ignited.Prelude.{
  ℕ, zero, suc, ◌+◌, ◌*◌, ◌%◌, ◌^◌, ◌≤◌, true, ◌≡◌, refl, sym, ap, ◌∙◌, List, [], ◌∷◌, ◌++◌, arith,
  eqb, ltb, length, Bool-cases, inl, inr, if◌then◌else◌,
}
use ignited.Prelude.Outcome.{ok}
use ignited.Vconsole.Keymap.{
  KbEntry, KeymapCalls, entry_at, first_bytes, load_keys, load_tables, load_blob,
}

-- The entries of a table, from one key on: the key's value is the low half of the address of its byte.
abbrev pub keys_from : ℕ → ℕ → ℕ → ℕ → ℕ → List KbEntry
keys_from base i zero j pos = []
keys_from base i (suc left) j pos =
    record { kb_table = i % 2 ^ 8; kb_index = j % 2 ^ 8; kb_value = (base + pos) % 2 ^ 16 }
    ∷ keys_from base i left (suc j) (pos + 2)

-- Those of the enabled tables, each 256 bytes behind the one before it.
abbrev pub tables_from : ℕ → List ℕ → ℕ → ℕ → List KbEntry
tables_from base [] i pos = []
tables_from base (enabled ∷ others) i pos =
    if eqb enabled 1
    then keys_from base i 128 0 pos ++ tables_from base others (suc i) (pos + 256)
    else tables_from base others (suc i) pos

-- How many tables are enabled.
unfoldable pub count : List ℕ → ℕ
count [] = 0
count (enabled ∷ others) = if eqb enabled 1 then suc (count others) else count others

module _ {Tree : Type 0} (calls : KeymapCalls Tree) where
  -- The tree after the kernel was told all these entries.
  abbrev pub told : List KbEntry → Tree → Tree
  told [] t = t
  told (ke ∷ kes) t = told kes (calls.kdskbent ke t).1

  told-append : (xs ys : List KbEntry) (t : Tree) → told (xs ++ ys) t ≡ told ys (told xs t)
  told-append [] ys t = refl
  told-append (x ∷ xs) ys t = told-append xs ys (calls.kdskbent x t).1

  module _ (takes : (ke : KbEntry) (t : Tree) → (calls.kdskbent ke t).0 ≡ true) where
    pub load_keys-told :
        (base len i left j pos : ℕ) (t : Tree)
        → pos + 2 * left ≤ suc len
        → load_keys calls base len i left j pos t
          ≡ (ok (pos + 2 * left), told (keys_from base i left j pos) t)
    unfolding load_keys entry_at
    load_keys-told base len i zero j pos t fits = ap (λ p. (ok p, t)) (omega arith)
    load_keys-told base len i (suc left) j pos t fits =
        let inside : ltb pos len ≡ true = ground arith in
        rw (load_keys, inside, takes (entry_at base i j pos) t)
          (load_keys-told base len i left (suc j) (pos + 2) _ (omega arith)
            ∙ ap
                (λ p. (
                  ok p,
                  told (keys_from base i left (suc j) (pos + 2))
                      (calls.kdskbent (entry_at base i j pos) t).1,
                ))
                (omega arith))

    load_tables-told :
        (base len : ℕ) (enabled : List ℕ) (i pos : ℕ) (t : Tree)
        → pos + 256 * count enabled ≤ suc len
        → load_tables calls base len enabled i pos t
          ≡ (ok tt, told (tables_from base enabled i pos) t)
    unfolding load_tables count
    load_tables-told base len [] i pos t fits = refl
    load_tables-told base len (e ∷ es) i pos t fits = elim (Bool-cases (eqb e 1)) [
      | inl on ↦
          let fits' : pos + 256 * suc (count es) ≤ suc len = rw (count, on) at fits in
          rw (on, load_keys-told base len i 128 0 pos t (omega arith))
            (load_tables-told base len es (suc i) (pos + 256) (told (keys_from base i 128 0 pos) t)
                (omega arith)
              ∙ ap (λ t'. (ok tt, t'))
                  (sym (
                    told-append (keys_from base i 128 0 pos)
                      (tables_from base es (suc i) (pos + 256)) t)))
      | inr off ↦ rw off (load_tables-told base len es (suc i) pos t (rw off at fits))
    ]

    -- If the kernel takes every entry and the file is long enough, it is told the 128 keys of each
    -- enabled table, in order; and each key's value is the low half of the address of its byte,
    -- whatever the byte is.
    pub load_blob-told :
        (base : ℕ) (enabled blob : List ℕ) (t : Tree)
        → first_bytes 256 blob ≡ ok enabled
        → 256 + 256 * count enabled ≤ suc (length blob)
        → load_blob calls base blob t ≡ (ok tt, told (tables_from base enabled 0 256) t)
    unfolding load_blob
    load_blob-told base enabled blob t first fits =
        rw (load_blob, first) (load_tables-told base (length blob) enabled 0 256 t fits)
