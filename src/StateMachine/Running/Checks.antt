-- ===== src/StateMachine/Running/Checks.antt =====
-- The unit tests of hdr/bren/StateMachine.hpp, chk/statemachine.cpp, and the macro that they register
-- transitions with. The states Start, Inter and End are 0, 1 and 2, the events Event and Quit 0 and 1.
use brenlib.Prelude.{
  ℕ, Bool, true, false, not, ◌&&◌, ◌==◌, if◌then◌else◌, List, [], ◌∷◌, ◌++◌, none, length, Result,
  ok, err, invalid_argument, logic_error, ◌>>=◌, ◌>>◌, ◌≡◌, refl,
}
use brenlib.Prelude.Text.{Text, text_eq, codes}
use brenlib.Prelude.Asserts.{Check, assert, assert_throw}
use brenlib.StateMachine.{
  Machine, Target, Callback, create, name_event, name_state, transition, set_obj, observe,
}
use brenlib.StateMachine.Running.{event_sync}

-- STATE_MACHINE_TRANSITION, with the texts of its arguments
pub transition_named :
    {W : Type 0} → Machine W → ℕ × Text → ℕ × Text → ℕ × Text → Result (Machine W)
transition_named m from event to = do
  a ← name_state m from.0 from.1
  b ← name_event a event.0 event.1
  c ← name_state b to.0 to.1
  transition c from.0 event.0 (record { target = to.0; on_trans = none; in_state = none })

abbrev start_state : ℕ × Text
start_state = (0, codes "checkState::Start")

abbrev inter_state : ℕ × Text
inter_state = (1, codes "checkState::Inter")

abbrev end_state : ℕ × Text
end_state = (2, codes "checkState::End")

abbrev an_event : ℕ × Text
an_event = (0, codes "checkEvent::Event")

abbrev quit_event : ℕ × Text
quit_event = (1, codes "checkEvent::Quit")

-- `called` of the CallReporter
abbrev Calls : Type 0
Calls = List (ℕ × Text)

pub set_up : Result (Machine Calls)
set_up = do
  a ← transition_named (create 0 2 []) start_state an_event inter_state
  b ← transition_named a start_state quit_event end_state
  transition_named b inter_state quit_event end_state

abbrev same_answer : Bool → Bool → Bool
same_answer true b = b
same_answer false b = not b

-- `event(e, true)`, and assertions of its answer and of the state behind it
pub triggers : ℕ → Bool → ℕ → Machine Calls → Result (Machine Calls)
triggers e answer state m = do
  let r = event_sync m e
  given ← r.1
  assert (same_answer answer given)
  assert (state == (r.0).state_)
  ok r.0

abbrev to_state : ℕ → Target Calls
to_state s = record { target = s; on_trans = none; in_state = none }

pub check_basics : Check
check_basics = do
  m ← set_up
  assert (0 == m.state_)
  assert_throw invalid_argument (transition m 2 0 (to_state 1))
  assert (0 == m.state_)
  a ← triggers 0 true 1 m
  b ← triggers 0 false 1 a
  c ← triggers 1 true 2 b
  d ← triggers 0 false 2 c
  e ← triggers 1 false 2 d
  assert_throw logic_error (transition e 1 0 (to_state 2))

check_basics_passes : check_basics ≡ ok tt
unfolding check_basics set_up transition_named name_state brenlib.StateMachine.register_name create
    name_event brenlib.Prelude.Maps.insert transition brenlib.Prelude.Maps.lookup triggers
    event_sync brenlib.StateMachine.Running.enabled
check_basics_passes = refl

-- `callback` of the CallReporter
pub callback : Callback Calls
callback st name called = (called ++ (st, name) ∷ [], ok (not (st == 2)))

abbrev last_call_is : ℕ → Text → Calls → Bool
last_call_is st name [] = false
last_call_is st name (p ∷ []) = (st == p.0) && text_eq name p.1
last_call_is st name (p ∷ q ∷ calls) = last_call_is st name (q ∷ calls)

pub check_funccall : Check
unfolding callback
check_funccall = do
  m ← set_up
  let r = observe (set_obj m) callback
  observed ← r.1
  assert (length (r.0).world == 1)
  assert (last_call_is 0 (codes "Start") (r.0).world)
  a ← triggers 0 true 1 r.0
  assert (length a.world == 2)
  assert (last_call_is 1 (codes "Inter") a.world)

check_funccall_passes : check_funccall ≡ ok tt
unfolding check_funccall set_up transition_named name_state brenlib.StateMachine.register_name
    create name_event brenlib.Prelude.Maps.insert transition brenlib.Prelude.Maps.lookup observe
    set_obj brenlib.StateMachine.name_of triggers event_sync brenlib.StateMachine.Running.enabled
check_funccall_passes = refl
