-- ===== src/Threads/Udev/Started.antt =====
-- Which events the listener starts a thread for.
use mathlib.Core.List.{append_assoc, append-nil}
use ignited.Prelude.Outcome.{Outcome, ok, err, panic}
use ignited.Threads.{sent, receive, ThreadHandle}
use ignited.Prelude.{
  String, Bool, true, false, ◌≡◌, refl, sym, ap, ◌∙◌, List, [], ◌∷◌, ◌++◌, All, concat_map,
}
use ignited.Threads.Udev.{
  UEvent, Ready, uevent_nl, woken, other_token, event, eof, io_error, malformed, Polled,
  interrupted, poll_error, events, returned, Listener, started_for, unless_ended, each_event,
  listen_loop, SocketAnswers, open_socket, listener_spawn, listener_thread, listen,
}

-- An event that neither ends the thread nor will.
abbrev pub IsCalm : Ready → Type 0
IsCalm (uevent_nl (event e)) = Unit
IsCalm (uevent_nl _) = ⊥
IsCalm woken = ⊥
IsCalm other_token = Unit

abbrev pub IsCalmPoll : Polled → Type 0
IsCalmPoll interrupted = Unit
IsCalmPoll poll_error = ⊥
IsCalmPoll (events rs) = All IsCalm rs

abbrev pub of_ready : Ready → List UEvent
of_ready (uevent_nl (event e)) = e ∷ []
of_ready _ = []

abbrev pub of_polled : Polled → List UEvent
of_polled (events rs) = concat_map of_ready rs
of_polled _ = []

start_all : List UEvent → Listener → Listener
start_all [] l = l
start_all (e ∷ es) l = start_all es (started_for l e)

start_all-append :
    (xs ys : List UEvent) (l : Listener) → start_all (xs ++ ys) l ≡ start_all ys (start_all xs l)
unfolding start_all
start_all-append [] ys l = refl
start_all-append (x ∷ xs) ys l = start_all-append xs ys (started_for l x)

started-start_all : (es : List UEvent) (l : Listener) → (start_all es l).started ≡ l.started ++ es
unfolding start_all
started-start_all [] l = sym (append-nil l.started)
started-start_all (e ∷ es) l =
    started-start_all es (started_for l e) ∙ append_assoc l.started (e ∷ []) es

each_event-calm :
    (quit : Bool) (rs rest : List Ready) (l : Listener)
    → All IsCalm rs
    → each_event quit (rs ++ rest) l ≡ each_event quit rest (start_all (concat_map of_ready rs) l)
unfolding each_event start_all
each_event-calm quit [] rest l h = refl
each_event-calm quit (uevent_nl (event e) ∷ rs) rest l (h, hs) =
    each_event-calm quit rs rest (started_for l e) hs
each_event-calm quit (uevent_nl eof ∷ rs) rest l (h, hs) = absurd h
each_event-calm quit (uevent_nl io_error ∷ rs) rest l (h, hs) = absurd h
each_event-calm quit (uevent_nl malformed ∷ rs) rest l (h, hs) = absurd h
each_event-calm quit (woken ∷ rs) rest l (h, hs) = absurd h
each_event-calm quit (other_token ∷ rs) rest l (h, hs) = each_event-calm quit rs rest l hs

listen_loop-calm :
    (calm later : List Polled) (l : Listener)
    → All IsCalmPoll calm
    → listen_loop (calm ++ later) l ≡ listen_loop later (start_all (concat_map of_polled calm) l)
unfolding listen_loop start_all
listen_loop-calm [] later l h = refl
listen_loop-calm (interrupted ∷ ps) later l (h, hs) = listen_loop-calm ps later l hs
listen_loop-calm (poll_error ∷ ps) later l (h, hs) = absurd h
listen_loop-calm (events rs ∷ ps) later l (h, hs) =
    ap (unless_ended (listen_loop (ps ++ later)))
      (ap (λ xs. each_event false xs l) (sym (append-nil rs)) ∙ each_event-calm false rs [] l h)
    ∙ listen_loop-calm ps later (start_all (concat_map of_ready rs) l) hs
    ∙ ap (listen_loop later) (sym (start_all-append (concat_map of_ready rs) _ l))

-- If nothing ends the thread before its waker is used, it returns then; and it has started a thread
-- for each event that came before that, in order, and for none that came behind, in the same answer
-- or a later one.
pub listen_loop-woken :
    (calm : List Polled) (before after : List Ready) (later : List Polled) (l : Listener)
    → All IsCalmPoll calm
    → All IsCalm before
    → ((listen_loop (calm ++ events (before ++ woken ∷ after) ∷ later) l).0 ≡ returned)
      × ((listen_loop (calm ++ events (before ++ woken ∷ after) ∷ later) l).1.started
          ≡ l.started ++ concat_map of_polled calm ++ concat_map of_ready before)
unfolding listen_loop each_event
listen_loop-woken calm before after later l h hs =
    let reached = start_all (concat_map of_polled calm) l in
    let whole =
      listen_loop-calm calm (events (before ++ woken ∷ after) ∷ later) l h
      ∙ ap (unless_ended (listen_loop later))
          (each_event-calm false before (woken ∷ after) reached hs) in
    (
      ap (λ r. r.0) whole,
      ap (λ r. r.1.started) whole
          ∙ started-start_all (concat_map of_ready before) reached
          ∙ ap (λ xs. xs ++ concat_map of_ready before)
              (started-start_all (concat_map of_polled calm) l),
    )

-- The listener was handed over exactly if its thread sent a waker.
spawn_of_listen :
    (closed : String) (console : Bool) (poll waker wake : Outcome (Unit {0})) {h : ThreadHandle}
    → listen closed console poll waker wake ≡ ok h
    → listener_spawn console poll waker ≡ sent (ok tt)
unfolding listen listener_spawn receive
spawn_of_listen closed false poll waker wake e = cc
spawn_of_listen closed true (err io) waker wake e = cc
spawn_of_listen closed true panic waker wake e = cc
spawn_of_listen closed true (ok u) (ok v) wake e = refl
spawn_of_listen closed true (ok u) (err io) wake e = cc
spawn_of_listen closed true (ok u) panic wake e = cc

-- If the listener was handed over, its socket could be opened, and nothing ends the thread before its
-- waker is used, it returns then; and it has started a thread for each event that came before that, in
-- order, and for none that came behind, in the same answer or a later one.
pub listener_thread-woken :
    (closed : String) (console : Bool) (poll waker wake : Outcome (Unit {0}))
    (socket : SocketAnswers) {handle : ThreadHandle} (calm : List Polled)
    (before after : List Ready) (later : List Polled) (l : Listener)
    → listen closed console poll waker wake ≡ ok handle
    → open_socket socket ≡ ok tt
    → All IsCalmPoll calm
    → All IsCalm before
    → ((listener_thread console poll waker true socket
          (calm ++ events (before ++ woken ∷ after) ∷ later)
          l).0
        ≡ returned)
      × ((listener_thread console poll waker true socket
            (calm ++ events (before ++ woken ∷ after) ∷ later)
            l).1.started
          ≡ l.started ++ concat_map of_polled calm ++ concat_map of_ready before)
unfolding listener_thread
listener_thread-woken closed console poll waker wake socket calm before after later l handed opened
      h hs =
    rw (spawn_of_listen closed console poll waker wake handed, opened)
      (listen_loop-woken calm before after later l h hs)
