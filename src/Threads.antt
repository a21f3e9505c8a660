-- ===== src/Threads.antt =====
-- `ThreadHandle` of src/common.rs, and how a thread hands its waker to the one that started it: the
-- waker comes over a channel, whose other end goes with the thread.
pub mod Udev
pub mod Sysfs
mod Tests
use ignited.Prelude.{String, Bool, true, false}
use ignited.Prelude.Text.{◌⧺◌}
use ignited.Prelude.Outcome.{Outcome, ok, err, panic}
use ignited.Logging.{KConsole, crit, print_message_ln}

-- What a thread sends before it goes on: a waker or an error; or its end of the channel is dropped.
pub data Sent : Type 0 where
  sent : Outcome (Unit {0}) → Sent
  dropped : Sent

-- `rx.recv().map_err(…)??`, with the text that the standard library has for a closed channel.
unfoldable pub receive : String → String → Sent → Outcome (Unit {0})
receive closed thread (sent o) = o
receive closed thread dropped = err ("error while spawning " ⧺ thread ⧺ " thread: " ⧺ closed)

-- A thread with the answer of its waker.
pub record ThreadHandle : Type 0 where
  pub name : String
  pub wake : Outcome (Unit {0})

abbrev notified : (String → String) → String → Outcome (Unit {0}) → KConsole → KConsole
notified printed name (err io) kcon =
    print_message_ln kcon crit
      (printed ("FATAL: error while notifying " ⧺ name ⧺ " to stop: " ⧺ io))
notified printed name _ kcon = kcon

-- The end of the thread is awaited, whatever it is. What is printed for an error with a message is a
-- parameter.
unfoldable pub join_now : (String → String) → ThreadHandle → KConsole → KConsole
join_now printed t kcon = notified printed t.name t.wake kcon
