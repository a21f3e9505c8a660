-- ===== src/Config/Cmdline/Keys.antt =====
-- The keys that `CmdlineArgs::parse_inner` matches on.
use ignited.Prelude.{String, ◌==◌, if◌then◌else◌}

pub data Key : Type 0 where
  ignited_log booster_log booster_debug quiet root resume init rootfstype rootflags : Key
  ro rw_key luks_options luks_name luks_uuid mod_param : Key

-- The arms of the match; any other key is taken for a module parameter.
unfoldable pub key_of : String → Key
key_of k =
    if k == "ignited.log"
    then ignited_log
    else if k == "booster.log"
    then booster_log
    else if k == "booster.debug"
    then booster_debug
    else if k == "quiet"
    then quiet
    else if k == "root"
    then root
    else if k == "resume"
    then resume
    else if k == "init"
    then init
    else if k == "rootfstype"
    then rootfstype
    else if k == "rootflags"
    then rootflags
    else if k == "ro"
    then ro
    else if k == "rw"
    then rw_key
    else if k == "rd.luks.options"
    then luks_options
    else if k == "rd.luks.name"
    then luks_name
    else if k == "rd.luks.uuid"
    then luks_uuid
    else mod_param
