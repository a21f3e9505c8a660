-- ===== src/Logging/Levels.antt =====
-- The spellings of the verbosity levels.
use ignited.Prelude.{String, ◌≡◌, ◌↔◌, ◌⊎◌, inl, inr, some, arith, eq_iff}
use ignited.Logging.{VerbosityLevel, debug, info, notice, warn, err, crit, try_from}

-- The texts that the documentation gives for each level; none for the critical one.
abbrev pub Spells : String → VerbosityLevel → Type 0
Spells s debug = s ≡ "debug"
Spells s info = s ≡ "info"
Spells s notice = s ≡ "notice"
Spells s warn = (s ≡ "warn") ⊎ (s ≡ "warning")
Spells s err = (s ≡ "err") ⊎ (s ≡ "error")
Spells s crit = ⊥

read-Spells : (s : String) (level : VerbosityLevel) → try_from s ≡ some level → Spells s level
unfolding try_from
read-Spells s debug h = ground (
  arith,
  eq_iff s "debug",
  eq_iff s "info",
  eq_iff s "notice",
  eq_iff s "warn",
  eq_iff s "warning",
  eq_iff s "err",
  eq_iff s "error",
)
read-Spells s _ h = ground (
  arith,
  eq_iff s "debug",
  eq_iff s "info",
  eq_iff s "notice",
  eq_iff s "warn",
  eq_iff s "warning",
  eq_iff s "err",
  eq_iff s "error",
)

Spells-read : (s : String) (level : VerbosityLevel) → Spells s level → try_from s ≡ some level
unfolding try_from
Spells-read s debug h = rw h
Spells-read s info h = rw h
Spells-read s notice h = rw h
Spells-read s warn h = elim h [ inl e ↦ rw e | inr e ↦ rw e ]
Spells-read s err h = elim h [ inl e ↦ rw e | inr e ↦ rw e ]
Spells-read s crit h = absurd h

-- Exactly the documented spellings are read, each as its level, and the critical level never is.
pub try_from_iff :
    (s : String) (level : VerbosityLevel) → (try_from s ≡ some level) ↔ Spells s level
try_from_iff s level = (read-Spells s level, Spells-read s level)
