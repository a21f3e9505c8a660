-- ===== src/Vconsole/Font.antt =====
-- `set_font` of src/vconsole.rs. What running `setfont` gives is a parameter.
use ignited.Prelude.{ℕ, String, Option, none, some, List, [], ◌∷◌, ◌++◌}
use ignited.Prelude.Text.{◌⧺◌}
use ignited.Prelude.Text.Number.{show}
use ignited.Prelude.Outcome.{Outcome, ok, err, map_err}
use ignited.Prelude.Run.{Run, ◌>>◌, ◌>>=◌, give}
use ignited.Logging.{info}
use ignited.Logging.Host.{Host, on_tree, kprint}

-- `ExitStatus`
pub data ExitStatus : Type 0 where
  success signaled : ExitStatus
  exited : ℕ → ExitStatus

pub record FontCalls (Tree : Type 0) : Type 0 where
  pub setfont : List String → Run Tree ExitStatus

abbrev option_args : String → Option String → List String
option_args flag none = []
option_args flag (some path) = flag ∷ path ∷ []

unfoldable pub font_args : String → Option String → Option String → List String
font_args font map_file unicode_file =
    font ∷ option_args "-m" map_file ++ option_args "-u" unicode_file

unfoldable pub check_status : ExitStatus → Outcome (Unit {0})
check_status success = ok tt
check_status (exited code) =
    err ("error while executing 'setfont': process exited with code " ⧺ show code)
check_status signaled = err "error while executing 'setfont': process signaled"

module _ {Tree : Type 0} (calls : FontCalls Tree) where
  abbrev executed : Outcome ExitStatus × Tree → Outcome ExitStatus × Tree
  executed (o, t) = (map_err (λ io. "unable to execute 'setfont': " ⧺ io) o, t)

  unfoldable pub set_font :
      Option String → Option String → Option String → Run (Host Tree) (Unit {0})
  unfolding font_args check_status
  set_font none map_file unicode_file h = (ok tt, h)
  set_font (some font) map_file unicode_file h =
      (kprint info ("loading font file " ⧺ font)
          >> (on_tree (λ t. executed (calls.setfont (font_args font map_file unicode_file) t))
              >>= λ status. give (check_status status)))
        h
