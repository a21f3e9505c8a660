-- ===== src/Threads/Sysfs.antt =====
-- `SysfsWalker` of src/sysfs.rs.
use ignited.Prelude.{String, ◌≡◌, refl}
use ignited.Prelude.Text.{◌⧺◌}
use ignited.Prelude.Outcome.{Outcome, ok, err, panic}
use ignited.Logging.{KConsole}
use ignited.Threads.{Sent, dropped, receive, ThreadHandle, join_now}

-- Both threads are `todo!`: they panic before they send anything.
unfoldable pub modalias_spawn : Sent
modalias_spawn = dropped

unfoldable pub walker_spawn : Sent
walker_spawn = dropped

pub record SysfsWalker : Type 0 where
  pub modaliases_t : ThreadHandle
  pub block_t : ThreadHandle

abbrev handle_of : String → Outcome (Unit {0}) → ThreadHandle
handle_of name wake = record { name = name; wake = wake }

abbrev then_block :
    Outcome (Unit {0}) → Outcome (Unit {0}) → Outcome (Unit {0}) → Outcome SysfsWalker
then_block wake_mod wake_block (ok u) = ok (record {
  modaliases_t = handle_of "sysfs-modalias" wake_mod;
  block_t = handle_of "sysfs-walker" wake_block;
})
then_block wake_mod wake_block (err e) = err e
then_block wake_mod wake_block panic = panic

-- `SysfsWalker::walk`, with the answers of the two wakers for later.
unfoldable pub walk : String → Outcome (Unit {0}) → Outcome (Unit {0}) → Outcome SysfsWalker
unfolding receive modalias_spawn walker_spawn
walk closed wake_mod wake_block = elim (receive closed "sysfs-modalias" modalias_spawn) [
  | ok u ↦ then_block wake_mod wake_block (receive closed "sysfs-walker" walker_spawn)
  | err e ↦ err e
  | panic ↦ panic
]

-- `SysfsWalker::stop`
unfoldable pub stop_walker : (String → String) → SysfsWalker → KConsole → KConsole
unfolding join_now
stop_walker printed w kcon = join_now printed w.modaliases_t (join_now printed w.block_t kcon)

-- As its threads are not written yet, the walk always fails, with the error for the first of them.
pub walk_fails :
    (closed : String) (wake_mod wake_block : Outcome (Unit {0}))
    → walk closed wake_mod wake_block
      ≡ err ("error while spawning sysfs-modalias thread: " ⧺ closed)
unfolding walk
walk_fails closed wake_mod wake_block = refl
