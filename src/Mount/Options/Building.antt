-- ===== src/Mount/Options/Building.antt =====
-- `try_build` and `build`: from the builder to the options of the mount.
use ignited.Prelude.{◌&&◌, ◌≡◌, arith, if◌then◌else◌}
use ignited.Prelude.Text.{is_some}
use ignited.Prelude.Outcome.{panic}
use ignited.Mount.Options.Flags.{FlagsCrate}
use ignited.Mount.Options.{Builder, incomplete, panicked, build_source, try_build, build}

-- As the source's `build` is not written yet, options are never built: `build` always panics, and
-- `try_build` panics on a builder with a source and a type and gives any other back as it was.
pub try_build_unfinished :
    {Uuid : Type 0} (f : FlagsCrate) (b : Builder Uuid f)
    → (build f b ≡ panic)
      × (try_build f b ≡ (if is_some b.source && is_some b.fstype then panicked else incomplete b))
unfolding try_build build build_source
try_build_unfinished f b = (ground arith, ground arith)
