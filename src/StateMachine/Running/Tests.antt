-- ===== src/StateMachine/Running/Tests.antt =====
-- A machine with two transitions, 0 to 1 on event 7 and 1 to 2 on event 8; 2 is the end state.
use brenlib.Prelude.{
  ℕ, suc, ◌+◌, ◌*◌, ◌≤◌, length, Bool, true, false, not, ◌==◌, if◌then◌else◌, List, [], ◌∷◌, ◌++◌,
  Option, none, some, Result, ok, err, ◌>>=◌, invalid_argument, runtime_error, ◌≡◌, refl, inl, inr,
  All,
}
use brenlib.Prelude.Text.{Text, codes, elem}
use brenlib.Prelude.Maps.{lookup, insert, nat_key}
use brenlib.StateMachine.{
  digraph, Machine, Target, TransFunc, Callback, create, name_of, shorten, register_name,
  name_event, name_state, noop, set_obj, observe,
}
use brenlib.StateMachine.Running.{enabled, run_transition, event_sync}
use brenlib.StateMachine.Running.Safety.{
  Outcome, destination, observer_throws, run_transition-Outcome,
}
use brenlib.StateMachine.Running.Reach.{Leads, run_events, run_events-Leads}

abbrev counting : TransFunc ℕ
counting n = (suc n, ok true)

abbrev pub first : Target ℕ
first = record { target = 1; on_trans = none; in_state = none }

abbrev pub counted : Target ℕ
counted = record { target = 1; on_trans = some counting; in_state = none }

abbrev pub second : Target ℕ
second = record { target = 2; on_trans = none; in_state = none }

-- The machine with these transitions, an object and a counter, in a state.
abbrev pub at_state : ℕ → Machine ℕ
at_state s = record {
  active_ = false;
  callbacks_ = [];
  end_ = 2;
  events_ = [];
  states_ = [];
  obj_ = true;
  start_ = 0;
  state_ = s;
  trans_ = (0, (7, counted) ∷ (9, second) ∷ []) ∷ (1, (8, second) ∷ []) ∷ [];
  world = 5;
}

abbrev always_stays : Callback ℕ
always_stays s t n = (n, ok true)

runs :
    ((event_sync (at_state 0) 7).1 ≡ ok true)
    × ((event_sync (at_state 0) 8).1 ≡ ok false)
    × (noop {W = ℕ} 5 ≡ (5, ok true))
    × ((set_obj {W = ℕ} (create 0 2 5)).obj_ ≡ true)
    × ((observe (at_state 0) always_stays).1 ≡ ok tt)
    × ((name_event (at_state 0) 7 (codes "ev::start") >>= λ m. ok m.events_)
        ≡ ok ((7, codes "start") ∷ []))
    × ((name_state (at_state 0) 0 (codes "idle") >>= λ m. ok m.states_)
        ≡ ok ((0, codes "idle") ∷ []))
unfolding event_sync create noop set_obj observe name_event name_state register_name enabled
    run_transition lookup insert shorten brenlib.Prelude.Text.to_string name_of
runs = (refl, refl, refl, refl, refl, refl, refl)

-- The second of two observers throws.
abbrev throwing : Callback ℕ
throwing s t n = (n, err runtime_error)

abbrev observed : Machine ℕ
observed = record (at_state 0) { callbacks_ = always_stays ∷ throwing ∷ [] }

throwing_told : (observer_throws observed counted ≡ true) × (destination observed counted ≡ 1)
throwing_told = (refl, refl)

run_transition-Outcome_example : Outcome observed counted (run_transition 0 counted observed)
run_transition-Outcome_example = run_transition-Outcome observed counted

run_events-Leads_example :
    Leads (at_state 0).trans_ 0 (run_events (at_state 0) (7 ∷ 8 ∷ [])).state_
    × ((run_events (at_state 0) (7 ∷ 8 ∷ [])).trans_ ≡ (at_state 0).trans_)
run_events-Leads_example = run_events-Leads (at_state 0) (7 ∷ 8 ∷ [])

drawn :
    digraph (at_state 0)
    ≡ codes "digraph {\n\t\"__start__\" [style=\"filled\", label=\"\", fillcolor=\"black\", "
      ++ (codes "shape=\"circle\", fixedsize=true, width=0.2];\n\t\"2\" [peripheries=2];\n"
          ++ (codes "\t\"__start__\" -> \"0\";\n\t\"0\" -> \"1\" [ label=\"7\" ];\n"
              ++ codes "\t\"0\" -> \"2\" [ label=\"9\" ];\n\t\"1\" -> \"2\" [ label=\"8\" ];\n}\n"))
unfolding digraph name_of brenlib.Prelude.Text.to_string lookup
drawn = refl
