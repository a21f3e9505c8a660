-- ===== src/Vconsole/Tests.antt =====
-- A keymap file with two tables, the first of which is enabled.
use ignited.Prelude.{
  ℕ, zero, suc, ◌+◌, ◌*◌, ◌≤◌, ◌<◌, true, ◌≡◌, ◌↔◌, refl, List, [], ◌∷◌, ◌++◌, arith, length, none,
  some,
}
use ignited.Prelude.Outcome.{ok, panic}
use ignited.Vconsole.Font.{font_args}
use ignited.Vconsole.Keymap.{KeymapCalls, first_bytes, load_blob, entry_at}
use ignited.Vconsole.Keymap.Entries.{count, tables_from, told, load_blob-told}
use ignited.Vconsole.Keymap.Length.{load_blob_iff}

-- The state is the number of entries that the kernel took.
abbrev counting : KeymapCalls ℕ
counting = record {
  read = λ path t. ok [];
  address = λ path t. 0;
  open_tty = λ t. (true, t);
  kdskbmode = λ mode t. (true, t);
  kdskbent = λ ke t. (true, suc t);
  write_tty = λ bytes t. (true, t);
}

abbrev zeros : ℕ → List ℕ
zeros zero = []
zeros (suc n) = 0 ∷ zeros n

abbrev flags : List ℕ
flags = 1 ∷ zeros 255

abbrev blob : List ℕ
blob = flags ++ zeros 256

flags_read : first_bytes 256 blob ≡ ok flags
unfolding first_bytes
flags_read = refl

one_table : count flags ≡ 1
unfolding count
one_table = refl

load_blob-told_example :
    load_blob counting 4096 blob 0 ≡ (ok tt, told counting (tables_from 4096 flags 0 256) 0)
load_blob-told_example =
    load_blob-told counting (λ ke t. refl) 4096 flags blob 0 flags_read (rw one_table (omega arith))

load_blob_iff_example :
    ((load_blob counting 4096 blob 0).0 ≡ ok tt ↔ 256 + 256 * count flags ≤ suc (length blob))
    × ((load_blob counting 4096 blob 0).0 ≡ panic ↔ suc (length blob) < 256 + 256 * count flags)
load_blob_iff_example = load_blob_iff counting (λ ke t. refl) 4096 flags blob 0 flags_read

-- The first key's value is where its two bytes are.
first_entry : entry_at 4096 0 0 256 ≡ record { kb_table = 0; kb_index = 0; kb_value = 4352 }
unfolding entry_at
first_entry = refl

font_only : font_args "/font" none (some "/uni") ≡ "/font" ∷ "-u" ∷ "/uni" ∷ []
unfolding font_args
font_only = refl
