-- ===== src/Threads/Udev.antt =====
-- `UdevListener` of src/udev.rs: the setup of the listener thread, its loop over the answers of the
-- event loop and of the socket, and what it does with an event.
pub mod Started
use ignited.Prelude.{
  String, Bool, true, false, none, some, List, [], ◌∷◌, ◌++◌, ◌==◌, if◌then◌else◌, ◌&&◌,
}
use ignited.Prelude.Text.{◌⧺◌}
use ignited.Prelude.Assoc
use ignited.Prelude.Assoc.{Map}
use ignited.Prelude.Outcome.{Outcome, ok, err, panic}
use ignited.Logging.{KConsole, debug, print_message_ln}
use ignited.Threads.{Sent, sent, dropped, receive, ThreadHandle}

-- `ActionType`, of which the program tells one from the others.
pub data ActionType : Type 0 where
  add other_action : ActionType

pub record UEvent : Type 0 where
  pub action : ActionType
  pub subsystem : String
  pub env : Map String
  pub debug_text : String

-- The handlers that an event may go to; `hidraw` is an event of an input device that was added.
pub data Handler : Type 0 where
  load_modalias : String → Handler
  block_device network hidraw nothing : Handler

abbrev is_add : ActionType → Bool
is_add add = true
is_add other_action = false

abbrev by_subsystem : String → ActionType → Handler
by_subsystem subsystem action =
    if subsystem == "block"
    then block_device
    else if subsystem == "net"
    then network
    else if subsystem == "hidraw" && is_add action
    then hidraw
    else nothing

-- Which handler `handle_uevent` calls.
unfoldable pub handle_uevent : UEvent → Handler
handle_uevent e = elim (Assoc.get e.env "MODALIAS") [
  | some alias ↦ load_modalias alias
  | none ↦ by_subsystem e.subsystem e.action
]

-- The body of the handlers: all but the last are `todo!`.
unfoldable pub run_handler : Handler → Outcome (Unit {0})
run_handler nothing = ok tt
run_handler _ = panic

-- What the socket gives: its end, another error, a packet that is no event, or an event.
pub data Received : Type 0 where
  eof io_error malformed : Received
  event : UEvent → Received

-- The token of an event, with what the socket gives if it is the socket's.
pub data Ready : Type 0 where
  uevent_nl : Received → Ready
  woken other_token : Ready

-- What the event loop gives: an interruption, another error, or events.
pub data Polled : Type 0 where
  interrupted poll_error : Polled
  events : List Ready → Polled

-- How the thread is left: it goes on, it returned, or it panicked; with its console and the events
-- that threads were started for.
pub data ListenEnd : Type 0 where
  going returned panicked : ListenEnd

pub record Listener : Type 0 where
  pub kcon : KConsole
  pub started : List UEvent

abbrev pub started_for : Listener → UEvent → Listener
started_for l e = record {
  kcon = print_message_ln l.kcon debug ("udev event " ⧺ e.debug_text);
  started = l.started ++ e ∷ [];
}

abbrev quit_end : Bool → ListenEnd
quit_end true = returned
quit_end false = going

-- The inner loop, with `quit_thread`.
unfoldable pub each_event : Bool → List Ready → Listener → ListenEnd × Listener
each_event quit [] l = (quit_end quit, l)
each_event quit (uevent_nl eof ∷ rs) l = each_event true rs l
each_event quit (uevent_nl io_error ∷ rs) l = (panicked, l)
each_event quit (uevent_nl malformed ∷ rs) l = each_event true rs l
each_event quit (uevent_nl (event e) ∷ rs) l = each_event quit rs (started_for l e)
each_event quit (woken ∷ rs) l = (returned, l)
each_event quit (other_token ∷ rs) l = each_event quit rs l

abbrev pub unless_ended :
    (Listener → ListenEnd × Listener) → ListenEnd × Listener → ListenEnd × Listener
unless_ended next (going, l) = next l
unless_ended next (returned, l) = (returned, l)
unless_ended next (panicked, l) = (panicked, l)

-- The outer loop, over the answers of the event loop as far as they are known.
unfoldable pub listen_loop : List Polled → Listener → ListenEnd × Listener
unfolding each_event
listen_loop [] l = (going, l)
listen_loop (interrupted ∷ ps) l = listen_loop ps l
listen_loop (poll_error ∷ ps) l = (panicked, l)
listen_loop (events rs ∷ ps) l = unless_ended (listen_loop ps) (each_event false rs l)

abbrev setup_error : String → String → Sent
setup_error what io = sent (err ("error while setting up udev " ⧺ what ⧺ ": " ⧺ io))

abbrev send_waker : Outcome (Unit {0}) → Sent
send_waker (ok u) = sent (ok tt)
send_waker (err io) = setup_error "waker" io
send_waker panic = dropped

-- The setup of the thread, up to what it sends: whether the console can be opened, and the answers of
-- `Poll::new` and `Waker::new`.
unfoldable pub listener_spawn : Bool → Outcome (Unit {0}) → Outcome (Unit {0}) → Sent
listener_spawn false poll waker = dropped
listener_spawn true (ok u) waker = send_waker waker
listener_spawn true (err io) waker = setup_error "event loop" io
listener_spawn true panic waker = dropped

abbrev listener_of : Outcome (Unit {0}) → Outcome (Unit {0}) → Outcome ThreadHandle
listener_of wake (ok u) = ok (record { name = "udev"; wake = wake })
listener_of wake (err e) = err e
listener_of wake panic = panic

-- `UdevListener::listen`
unfoldable pub listen :
    String
    → Bool
    → Outcome (Unit {0})
    → Outcome (Unit {0})
    → Outcome (Unit {0})
    → Outcome ThreadHandle
unfolding receive listener_spawn
listen closed console poll waker wake =
    listener_of wake (receive closed "udev" (listener_spawn console poll waker))

-- What is asked for on the uevent socket: each call is unwrapped.
pub record SocketAnswers : Type 0 where
  pub created : Bool
  pub set_non_blocking : Bool
  pub bound : Bool
  pub registered : Bool

unfoldable pub open_socket : SocketAnswers → Outcome (Unit {0})
open_socket a = if a.created && a.set_non_blocking && a.bound && a.registered then ok tt else panic

abbrev listening : Outcome (Unit {0}) → List Polled → Listener → ListenEnd × Listener
listening (ok u) polls l = listen_loop polls l
listening (err e) polls l = (panicked, l)
listening panic polls l = (panicked, l)

-- The thread behind what it sends: a waker that nobody receives ends it.
abbrev pub behind_send : Bool → SocketAnswers → List Polled → Listener → Sent → ListenEnd × Listener
behind_send received socket polls l dropped = (panicked, l)
behind_send received socket polls l (sent (err e)) = (returned, l)
behind_send received socket polls l (sent panic) = (panicked, l)
behind_send received socket polls l (sent (ok u)) =
    if received then listening (open_socket socket) polls l else (returned, l)

-- `listener::spawn`, the whole thread.
unfoldable pub listener_thread :
    Bool
    → Outcome (Unit {0})
    → Outcome (Unit {0})
    → Bool
    → SocketAnswers
    → List Polled
    → Listener
    → ListenEnd × Listener
unfolding listener_spawn open_socket listen_loop
listener_thread console poll waker received socket polls l =
    behind_send received socket polls l (listener_spawn console poll waker)
