-- ===== src/Threads/Tests.antt =====
-- Events of the listener.
use ignited.Threads.Udev.Started.{of_polled, of_ready, listener_thread-woken}
use ignited.Prelude.{concat_map, ◌++◌, List, ◌≡◌, refl, [], ◌∷◌, true, false}
use ignited.Prelude.Assoc
use ignited.Prelude.Outcome.{ok, err}
use ignited.Logging.{info, print_message_ln}
use ignited.Threads.Udev.{
  UEvent, returned, Polled, other_token, woken, add, other_action, handle_uevent, hidraw, nothing,
  uevent_nl, eof, event, interrupted, events, Listener, listen_loop, listen, panicked,
  SocketAnswers, open_socket, listener_thread,
}

abbrev keyboard : UEvent
keyboard = record { action = add; subsystem = "hidraw"; env = []; debug_text = "keyboard" }

abbrev start : Listener
start = record { kcon = record { handle = []; current_level = info }; started = [] }

keyboard_added : handle_uevent keyboard ≡ hidraw
unfolding handle_uevent Assoc.get
keyboard_added = refl

keyboard_changed : handle_uevent (record keyboard { action = other_action }) ≡ nothing
unfolding handle_uevent Assoc.get
keyboard_changed = refl

-- An event behind the end of the socket in the same answer is still handled; one in a later is not.
eof_between :
    (listen_loop
      (interrupted
        ∷ events (uevent_nl (event keyboard) ∷ uevent_nl eof ∷ uevent_nl (event keyboard) ∷ [])
        ∷ events (uevent_nl (event keyboard) ∷ [])
        ∷ [])
      start).1.started
    ≡ keyboard ∷ keyboard ∷ []
unfolding listen_loop print_message_ln
eof_between = refl

no_waker :
    listen "closed" true (ok tt) (err "EMFILE") (ok tt)
    ≡ err "error while setting up udev waker: EMFILE"
unfolding listen
no_waker = refl

abbrev quiet_polls : List Polled
quiet_polls = interrupted ∷ events (uevent_nl (event keyboard) ∷ other_token ∷ []) ∷ []

abbrev open_answers : SocketAnswers
open_answers = record { created = true; set_non_blocking = true; bound = true; registered = true }

listener_thread-woken_example :
    ((listener_thread true
        (ok tt)
        (ok tt)
        true
        open_answers
        (quiet_polls ++ events ([] ++ woken ∷ uevent_nl eof ∷ []) ∷ [])
        start).0
      ≡ returned)
    × ((listener_thread true
          (ok tt)
          (ok tt)
          true
          open_answers
          (quiet_polls ++ events ([] ++ woken ∷ uevent_nl eof ∷ []) ∷ [])
          start).1.started
        ≡ start.started ++ concat_map of_polled quiet_polls ++ concat_map of_ready [])
unfolding listen open_socket
listener_thread-woken_example =
    listener_thread-woken "closed" true (ok tt) (ok tt) (ok tt) open_answers quiet_polls []
      (uevent_nl eof ∷ []) [] start refl refl (tt, ((tt, (tt, tt)), tt)) tt

-- The address is taken: the listener is handed over, and its thread has panicked.
abbrev not_bound : SocketAnswers
not_bound = record open_answers { bound = false }

not_bound_panics :
    listener_thread true (ok tt) (ok tt) true not_bound quiet_polls start ≡ (panicked, start)
unfolding listener_thread
not_bound_panics = refl
