-- ===== src/Boot/Evloop.antt =====
-- The main event loop of `init` in src/main.rs. What the polls answer and what the clock says behind
-- each is a parameter; an `Instant` is its number of nanoseconds.
use ignited.Prelude.{
  ℕ, ◌-◌, ◌≤◌, String, Bool, true, false, ◌≡◌, refl, ◌∙◌, ap, Option, none, some, List, [], ◌∷◌,
  arith, eqb, ltb, find_map, or_else, All, if◌then◌else◌,
}
use ignited.Prelude.Text.{◌⧺◌}
use ignited.Prelude.Outcome.{Outcome, ok, err, panic}

-- `evloop.poll`: the tokens of the events, or an error.
pub data PollAnswer : Type 0 where
  interrupted : PollAnswer
  poll_error : String → PollAnswer
  tokens : List ℕ → PollAnswer

-- The difference of two `Instant` is zero where it would be negative.
unfoldable pub calculate_evloop_timeout : ℕ → ℕ → Option ℕ → Outcome (Option ℕ)
calculate_evloop_timeout start now none = ok none
calculate_evloop_timeout start now (some timeout) =
    if eqb start now
    then ok (some timeout)
    else if ltb timeout (start - now)
    then err "timeout waiting for root filesystem"
    else ok (some (timeout - (start - now)))

-- IGNITED_MAIN_THREAD_WAKE_TOKEN among the events.
abbrev pub is_woken : List ℕ → Bool
is_woken [] = false
is_woken (token ∷ others) = if eqb token 10 then true else is_woken others

-- The result of a poll that ends the loop.
abbrev pub verdict : PollAnswer → Option (Outcome (Unit {0}))
verdict interrupted = none
verdict (poll_error io) = some (err ("error while running main event loop: " ⧺ io))
verdict (tokens ts) = if is_woken ts then some (ok tt) else none

-- A poll with the timeout that was calculated; a failure to calculate one ends the loop before it.
abbrev with_timeout : Outcome (Option ℕ) → Option (Outcome (Unit {0})) → Option (Outcome (Unit {0}))
with_timeout (ok timeout) polled = polled
with_timeout (err e) polled = some (err e)
with_timeout panic polled = some panic

-- `none` means that the loop waits for another answer.
unfoldable pub evloop : ℕ → Option ℕ → ℕ → List (PollAnswer × ℕ) → Option (Outcome (Unit {0}))
unfolding calculate_evloop_timeout
evloop start timeout now [] = with_timeout (calculate_evloop_timeout start now timeout) none
evloop start timeout now ((answer, now') ∷ rest) =
    with_timeout (calculate_evloop_timeout start now timeout)
      (or_else (verdict answer) (evloop start timeout now' rest))

never_late :
    (start now : ℕ) (timeout : Option ℕ) (polled : Option (Outcome (Unit {0})))
    → start ≤ now
    → with_timeout (calculate_evloop_timeout start now timeout) polled ≡ polled
unfolding calculate_evloop_timeout
never_late start now none polled h = refl
never_late start now (some t) polled h = ground arith

evloop_from :
    (start now : ℕ) (timeout : Option ℕ) (answers : List (PollAnswer × ℕ))
    → start ≤ now
    → All (λ a. start ≤ a.1) answers
    → evloop start timeout now answers ≡ find_map (λ a. verdict a.0) answers
unfolding evloop
evloop_from start now timeout [] h hs = never_late start now timeout none h
evloop_from start now timeout ((answer, now') ∷ rest) h (later, hs) =
    never_late start now timeout _ h
    ∙ ap (or_else (verdict answer)) (evloop_from start now' timeout rest later hs)

-- With a clock that does not run backwards the loop ends with the first poll that fails or gives the
-- waker's token, whatever the timeout is: the timeout is never noticed.
pub evloop-verdict :
    (start : ℕ) (timeout : Option ℕ) (answers : List (PollAnswer × ℕ))
    → All (λ a. start ≤ a.1) answers
    → evloop start timeout start answers ≡ find_map (λ a. verdict a.0) answers
evloop-verdict start timeout answers hs = evloop_from start start timeout answers (omega arith) hs
