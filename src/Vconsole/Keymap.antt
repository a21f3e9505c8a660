-- ===== src/Vconsole/Keymap.antt =====
-- `load_keymap` and `load_keymap_file` of src/vconsole.rs. The calls on the terminal are a parameter,
-- and so is the place of the file's bytes in memory.
pub mod Entries
pub mod Length
use ignited.Prelude.{
  ℕ, zero, suc, ◌+◌, ◌%◌, ◌^◌, String, Bool, true, false, Option, none, some, List, [], ◌∷◌, eqb,
  ltb, length, if◌then◌else◌,
}
use ignited.Prelude.Text.{◌⧺◌}
use ignited.Prelude.Outcome.{Outcome, ok, err, panic, map_err}
use ignited.Prelude.Run.{Run, ◌>>◌, ◌>>=◌, give, printable}
use ignited.Logging.{info}
use ignited.Logging.Host.{Host, on_tree, kprint}

pub record KbEntry : Type 0 where
  pub kb_table : ℕ
  pub kb_index : ℕ
  pub kb_value : ℕ

-- `fs::read`, with the address of the byte behind the seven of the magic number; `open`; the two
-- `ioctl`; and `write`.
pub record KeymapCalls (Tree : Type 0) : Type 0 where
  pub read : String → Tree → Outcome (List ℕ)
  pub address : String → Tree → ℕ
  pub open_tty : Tree → Bool × Tree
  pub kdskbmode : ℕ → Tree → Bool × Tree
  pub kdskbent : KbEntry → Tree → Bool × Tree
  pub write_tty : List ℕ → Tree → Bool × Tree

unfoldable pub strip_bytes : List ℕ → List ℕ → Option (List ℕ)
strip_bytes [] bytes = some bytes
strip_bytes (p ∷ ps) [] = none
strip_bytes (p ∷ ps) (b ∷ bytes) = if eqb p b then strip_bytes ps bytes else none

abbrev push_byte : ℕ → Outcome (List ℕ) → Outcome (List ℕ)
push_byte b (ok bs) = ok (b ∷ bs)
push_byte b _ = panic

-- `&bytes[..n]`
unfoldable pub first_bytes : ℕ → List ℕ → Outcome (List ℕ)
first_bytes zero bytes = ok []
first_bytes (suc n) [] = panic
first_bytes (suc n) (b ∷ bytes) = push_byte b (first_bytes n bytes)

-- `bkeymap`
abbrev pub magic : List ℕ
magic = 98 ∷ 107 ∷ 101 ∷ 121 ∷ 109 ∷ 97 ∷ 112 ∷ []

-- `b"\033%G"` and `b"\033%@"`: in Rust `\0` is a null byte, and the two digits stand for themselves.
abbrev pub ctrl : Bool → List ℕ
ctrl true = 0 ∷ 51 ∷ 51 ∷ 37 ∷ 71 ∷ []
ctrl false = 0 ∷ 51 ∷ 51 ∷ 37 ∷ 64 ∷ []

-- K_UNICODE and K_XLATE
abbrev pub keyboard_mode : Bool → ℕ
keyboard_mode true = 3
keyboard_mode false = 1

-- `&keymap_blob[pos] as *const _ as u16`: the low half of where the byte is, not what it is.
unfoldable pub entry_at : ℕ → ℕ → ℕ → ℕ → KbEntry
entry_at base i j pos = record {
  kb_table = i % 2 ^ 8;
  kb_index = j % 2 ^ 8;
  kb_value = (base + pos) % 2 ^ 16;
}

abbrev pub in_range : ℕ → ℕ → Outcome (Unit {0})
in_range pos len = if ltb pos len then ok tt else panic

module _ {Tree : Type 0} (calls : KeymapCalls Tree) where
  abbrev pub send : KbEntry → Run Tree (Unit {0})
  send ke = printable "unable to change keymap" (calls.kdskbent ke)

  -- The inner loop from key `j` on for as many keys as are left; the result is the new `pos`.
  unfoldable pub load_keys : ℕ → ℕ → ℕ → ℕ → ℕ → ℕ → Run Tree ℕ
  unfolding entry_at
  load_keys base len i zero j pos t = (ok pos, t)
  load_keys base len i (suc left) j pos t =
      (give (in_range pos len)
          >> send (entry_at base i j pos)
          >> load_keys base len i left (suc j) (pos + 2))
        t

  -- One round of the outer loop: a keymap that is not enabled leaves `pos` as it is.
  abbrev pub load_table : ℕ → ℕ → ℕ → ℕ → ℕ → Run Tree ℕ
  load_table base len enabled i pos =
      if eqb enabled 1 then load_keys base len i 128 0 pos else give (ok pos)

  unfoldable pub load_tables : ℕ → ℕ → List ℕ → ℕ → ℕ → Run Tree (Unit {0})
  unfolding load_keys
  load_tables base len [] i pos t = (ok tt, t)
  load_tables base len (enabled ∷ others) i pos t =
      (load_table base len enabled i pos >>= load_tables base len others (suc i)) t

  -- Behind the magic number.
  unfoldable pub load_blob : ℕ → List ℕ → Run Tree (Unit {0})
  unfolding first_bytes load_tables
  load_blob base blob =
      give (first_bytes 256 blob) >>= λ enabled. load_tables base (length blob) enabled 0 256

  abbrev checked_blob : String → Option (List ℕ) → Outcome (List ℕ)
  checked_blob path none = err ("unable to process keymap file at " ⧺ path ⧺ ": invalid keymap")
  checked_blob path (some blob) = ok blob

  unfoldable pub load_keymap_file : String → Run Tree (Unit {0})
  unfolding strip_bytes load_blob
  load_keymap_file path t =
      (give (map_err (λ io. "unable to open " ⧺ path ⧺ ": " ⧺ io) (calls.read path t))
          >>= (λ bytes. give (checked_blob path (strip_bytes magic bytes)))
          >>= load_blob (calls.address path t))
        t

  unfoldable pub load_keymap : Option String → Bool → Run (Host Tree) (Unit {0})
  unfolding load_keymap_file
  load_keymap none is_utf8 h = (ok tt, h)
  load_keymap (some path) is_utf8 h =
      (kprint info ("loading keymap file " ⧺ path)
          >> on_tree (
              printable "unable to open tty0" calls.open_tty
              >> printable "unable to set keyboard mode" (calls.kdskbmode (keyboard_mode is_utf8))
              >> printable "unable to set terminal line settings" (calls.write_tty (ctrl is_utf8))
              >> load_keymap_file path))
        h
