-- ===== src/StateMachine/Running/Threads/Tests.antt =====
-- Runs of asynchronous events of the machine of StateMachine/Running/Tests.antt.
use brenlib.Prelude.{ℕ, true, [], ◌∷◌, ◌++◌, some, ok, ◌≡◌, refl}
use brenlib.Prelude.Maps.{lookup, nat_key}
use brenlib.StateMachine.{Machine}
use brenlib.StateMachine.Running.{enabled, arrive}
use brenlib.StateMachine.Running.Reach.{run_events}
use brenlib.StateMachine.Running.Tests.{first, counted, second, at_state}
use brenlib.StateMachine.Running.Threads.{
  Job, Phase, before, marked, answered, arrived, closing, System, Steps, here, next, posts, turns,
  idle, started, event_async, advance, after_turn, posted,
}
use brenlib.StateMachine.Running.Threads.Overtaking.{leaves_end}
use brenlib.StateMachine.Running.Threads.Serial.{fails, waiting-run_events}

abbrev both : Machine ℕ
both = record (at_state 0) { trans_ = (0, (7, first) ∷ (9, second) ∷ []) ∷ [] }

enabled-first : enabled both 7 ≡ some first
unfolding enabled lookup
enabled-first = refl

enabled-second : enabled both 9 ≡ some second
unfolding enabled lookup
enabled-second = refl

leaves_end_example :
    (s t : System ℕ) × Steps (idle both) s
    × (s.machine.state_ ≡ 2)
    × Steps s t
    × (t.machine.state_ ≡ 1)
leaves_end_example =
    leaves_end both 9 7 second first enabled-second enabled-first refl (refl, refl) (refl, refl)

-- Event 7 in state 0, and the five turns of its thread.
abbrev of_7 : Job ℕ
of_7 = started (at_state 0) counted

abbrev turned : System ℕ → Phase → System ℕ
turned s p = after_turn [] [] of_7 (advance of_7 p s.machine)

abbrev posted_7 : System ℕ
posted_7 = record (idle (at_state 0)) { threads = [] ++ event_async (at_state 0) 7 }

abbrev marked_7 : System ℕ
marked_7 = turned posted_7 before

abbrev answered_7 : System ℕ
answered_7 = turned marked_7 marked

abbrev arrived_7 : System ℕ
arrived_7 = turned answered_7 (answered (ok true))

abbrev closing_7 : System ℕ
closing_7 = turned arrived_7 arrived

abbrev ended_7 : System ℕ
ended_7 = turned closing_7 closing

abbrev run_7 : Steps (idle (at_state 0)) ended_7
unfolding event_async advance enabled lookup arrive
run_7 =
    next
      (next
        (next
          (next (next (next here (posts 7 refl)) (turns [] [] of_7 before refl refl))
            (turns [] [] of_7 marked refl refl))
          (turns [] [] of_7 (answered (ok true)) refl refl))
        (turns [] [] of_7 arrived refl refl))
      (turns [] [] of_7 closing refl refl)

waiting-run_events_example :
    (ended_7.machine ≡ run_events (at_state 0) (posted run_7))
    × (ended_7.aborted ≡ fails (at_state 0) (posted run_7))
unfolding run_7
waiting-run_events_example = waiting-run_events (at_state 0) ended_7 run_7 (refl, tt) refl
