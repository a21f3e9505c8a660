-- ===== src/Vconsole.antt =====
-- src/vconsole.rs: the font and the keymap of the virtual console. The calls are a parameter.
pub mod Font
pub mod Keymap
mod Tests
use ignited.Prelude.{Option, none, some}
use ignited.Prelude.Outcome.{Outcome, ok}
use ignited.Prelude.Run.{Run, ◌>>◌}
use ignited.Logging.Host.{Host}
use ignited.Config.Runtime.{ConsoleConfig, RuntimeConfig}
use Font.{FontCalls, set_font}
use Keymap.{KeymapCalls, load_keymap}

module _ {Tree : Type 0} (fonts : FontCalls Tree) (keymaps : KeymapCalls Tree) where
  abbrev setup_console : Option ConsoleConfig → Run (Host Tree) (Unit {0})
  setup_console none h = (ok tt, h)
  setup_console (some c) h =
      (set_font fonts c.font_file c.font_map_file c.font_unicode_file
          >> load_keymap keymaps c.keymap_file c.utf)
        h

  unfoldable pub setup_vconsole : RuntimeConfig → Run (Host Tree) (Unit {0})
  unfolding set_font load_keymap
  setup_vconsole config = setup_console config.console
