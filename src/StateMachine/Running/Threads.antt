-- ===== src/StateMachine/Running/Threads.antt =====
-- Asynchronous `event` of hdr/bren/StateMachine.hpp: each accepted call starts a thread that runs
-- `transition_`. A thread goes on in turns: a section under the mutex, or a call of a function that
-- runs while the mutex is free. Between two turns the other threads, and calls of `event`, take theirs.
mod Serial
mod Overtaking
mod Tests
use brenlib.Prelude.{
  ℕ, Bool, true, false, if◌then◌else◌, List, [], ◌∷◌, ◌++◌, Option, none, some, Result, ok, err,
  ◌≡◌,
}
use brenlib.StateMachine.{Machine, Target, TransFunc, StateFunc}
use brenlib.StateMachine.Running.{Exit, done, thrown, thrown_locked, arrive, close, enabled}

-- The arguments that the thread was started with.
pub record Job (W : Type 0) : Type 0 where
  pub from : ℕ
  pub target : Target W

-- Where a thread stands in `transition_`: before the first lock; behind the first unlock; behind the
-- call of `onTrans_i`, with what it gave; behind the second unlock; before the last lock.
pub data Phase : Type 0 where
  before marked arrived closing : Phase
  answered : Result Bool → Phase

-- What becomes of the thread in a turn. An exception that leaves `transition_` ends the program.
pub data After : Type 0 where
  goes : Phase → After
  leaves aborts : After

module _ {W : Type 0} where
  abbrev pub landed : Machine W × Exit → Machine W × After
  landed (m, done) = (m, goes arrived)
  landed (m, thrown) = (m, goes closing)
  landed (m, thrown_locked) = (m, aborts)

  abbrev pub called : Machine W → W × Result Bool → Machine W × After
  called m (w, r) = (record m { world = w }, goes (answered r))

  abbrev pub entered : Machine W → W × Result (Unit {0}) → Machine W × After
  entered m (w, r) = (record m { world = w }, goes closing)

  -- The turn behind the first unlock.
  abbrev pub call_or_land : Job W → Option (TransFunc W) → Machine W → Machine W × After
  call_or_land j none m = landed (arrive j.target.target m)
  call_or_land j (some f) m = if m.obj_ then called m (f m.world) else (m, goes closing)

  -- The turn behind the second unlock.
  abbrev pub call_in_state : Option (StateFunc W) → Machine W → Machine W × After
  call_in_state none m = (m, goes closing)
  call_in_state (some g) m = if m.obj_ then entered m (g m.world) else (m, goes closing)

  -- A turn of a thread.
  pub advance : Job W → Phase → Machine W → Machine W × After
  advance j before m = (record m { active_ = true }, goes marked)
  advance j marked m = call_or_land j j.target.on_trans m
  advance j (answered (ok accepted)) m =
      landed (arrive (if accepted then j.target.target else j.from) m)
  advance j (answered (err e)) m = (m, goes closing)
  advance j arrived m = call_in_state j.target.in_state m
  advance j closing m = (close m, leaves)

-- The machine and the threads that run; whether the program was ended.
pub record System (W : Type 0) : Type 0 where
  pub machine : Machine W
  pub threads : List (Job W × Phase)
  pub aborted : Bool

abbrev pub idle : {W : Type 0} → Machine W → System W
idle m = record { machine = m; threads = []; aborted = false }

abbrev pub started : {W : Type 0} → Machine W → Target W → Job W
started m tgt = record { from = m.state_; target = tgt }

-- `event(event_i)`: the threads that are started, one if the answer is true.
pub event_async : {W : Type 0} → Machine W → ℕ → List (Job W × Phase)
event_async m ev = elim (enabled m ev) [ none ↦ [] | some tgt ↦ (started m tgt, before) ∷ [] ]

-- The system after a turn of the thread of `j`, between the others.
abbrev pub after_turn :
    {W : Type 0} → (front back : List (Job W × Phase)) → Job W → Machine W × After → System W
after_turn front back j (m, goes p) = record {
  machine = m;
  threads = front ++ (j, p) ∷ back;
  aborted = false;
}
after_turn front back j (m, leaves) = record {
  machine = m;
  threads = front ++ back;
  aborted = false;
}
after_turn front back j (m, aborts) = record {
  machine = m;
  threads = front ++ back;
  aborted = true;
}

pub data Step {W : Type 0} (s : System W) : System W → Type 0 where
  posts :
      (ev : ℕ)
      → s.aborted ≡ false
      → Step s (record s { threads = s.threads ++ event_async s.machine ev })
  turns :
      (front back : List (Job W × Phase)) (j : Job W) (p : Phase)
      → s.aborted ≡ false
      → s.threads ≡ front ++ (j, p) ∷ back
      → Step s (after_turn front back j (advance j p s.machine))

pub data Steps {W : Type 0} (s : System W) : System W → Type 0 where
  here : Steps s s
  next : {t u : System W} → Steps s t → Step t u → Steps s u

-- The events of a run, in their order.
pub posted : {W : Type 0} {s t : System W} → Steps s t → List ℕ
posted here = []
posted (next r (posts ev a)) = posted r ++ ev ∷ []
posted (next r (turns front back j p a e)) = posted r

-- No call of `event` comes while a thread runs.
abbrev pub Waits : {W : Type 0} {s t : System W} → Steps s t → Type 0
Waits here = Unit
Waits (next {t = t} r (posts ev a)) = (t.threads ≡ []) × Waits r
Waits (next r (turns front back j p a e)) = Waits r
