-- ===== src/StateMachine/Running.antt =====
-- `call_`, `transition_` and `event` of hdr/bren/StateMachine.hpp.
pub mod Safety
mod Handlers
pub mod Reach
pub mod Threads
mod Checks
pub mod Tests
use brenlib.Prelude.{
  ℕ, Bool, true, false, not, ◌==◌, if◌then◌else◌, List, [], ◌∷◌, Option, none, some, Result, ok,
  err, Error, system_error,
}
use brenlib.Prelude.Text.{Text}
use brenlib.Prelude.Maps.{lookup, nat_key}
use brenlib.StateMachine.{Machine, Target, TransFunc, StateFunc, Callback, name_of}

-- How the `try` block of `transition_` is left: to its end; by an exception while the mutex is
-- free; by one while the mutex is held, which only `call_` runs under.
pub data Exit : Type 0 where
  done thrown thrown_locked : Exit

module _ {W : Type 0} where
  -- `call_` on the list of observers: those that stay, the world, and whether all went well. An
  -- observer that throws leaves itself and those behind it in the list.
  pub call_all : ℕ → Text → List (Callback W) → W → List (Callback W) × W × Exit
  call_all st name [] w = ([], w, done)
  call_all st name (f ∷ fs) w =
      let (w', r) = f st name w in
      let (fs', w'', x) = call_all st name fs w' in
      elim r [
        | err e ↦ (f ∷ fs, w', thrown_locked)
        | ok keep ↦ (if keep then f ∷ fs' else fs', w'', x)
      ]

  -- Under the mutex: `state_ = to_i; call_();`
  pub arrive : ℕ → Machine W → Machine W × Exit
  unfolding call_all
  arrive st m =
      let (fs, w, x) = call_all st (name_of m.states_ st) m.callbacks_ m.world in
      (record m { state_ = st; callbacks_ = fs; world = w }, x)

  -- What follows the call of `onTrans_i`.
  pub settle : ℕ → ℕ → Machine W → W × Result Bool → Machine W × Exit
  unfolding arrive
  settle from to m (w, ok true) = arrive to (record m { world = w })
  settle from to m (w, ok false) = arrive from (record m { world = w })
  settle from to m (w, err e) = (record m { world = w }, thrown)

  -- The first half of the `try` block.
  pub move : ℕ → ℕ → Option (TransFunc W) → Machine W → Machine W × Exit
  unfolding settle
  move from to none m = arrive to m
  move from to (some f) m = if m.obj_ then settle from to m (f m.world) else (m, thrown)

  abbrev after_state : Machine W → W × Result (Unit {0}) → Machine W × Exit
  after_state m (w, ok u) = (record m { world = w }, done)
  after_state m (w, err e) = (record m { world = w }, thrown)

  -- The second half of the `try` block, which an exception in the first half skips.
  pub enter : Option (StateFunc W) → Machine W × Exit → Machine W × Exit
  enter f (m, thrown) = (m, thrown)
  enter f (m, thrown_locked) = (m, thrown_locked)
  enter none (m, done) = (m, done)
  enter (some g) (m, done) = if m.obj_ then after_state m (g m.world) else (m, thrown)

  -- The end of `transition_`: the object is released in the end state, and all observers go.
  pub close : Machine W → Machine W
  close m = record m {
    obj_ = if m.state_ == m.end_ then false else m.obj_;
    active_ = false;
    callbacks_ = [];
  }

  -- `lck.lock()` throws where this lock is held already; that exception leaves `transition_`.
  pub finish : Machine W × Exit → Machine W × Result (Unit {0})
  unfolding close
  finish (m, done) = (close m, ok tt)
  finish (m, thrown) = (close m, ok tt)
  finish (m, thrown_locked) = (m, err system_error)

  -- `transition_`
  pub run_transition : ℕ → Target W → Machine W → Machine W × Result (Unit {0})
  unfolding move enter finish
  run_transition from tgt m =
      finish (enter tgt.in_state (move from tgt.target tgt.on_trans (record m { active_ = true })))

  abbrev pub event_of : ℕ → Option (List (ℕ × Target W)) → Option (Target W)
  event_of ev none = none
  event_of ev (some events) = lookup ev events

  -- The guards of `event`: the transition to make, or none if the answer is `false`.
  pub enabled : Machine W → ℕ → Option (Target W)
  enabled m ev =
      if m.active_
      then none
      else if m.state_ == m.end_
      then none
      else event_of ev (lookup m.state_ m.trans_)

  abbrev pub answer : Machine W × Result (Unit {0}) → Machine W × Result Bool
  answer (m, ok u) = (m, ok true)
  answer (m, err e) = (m, err e)

  -- `event(event_i, true)`
  pub event_sync : Machine W → ℕ → Machine W × Result Bool
  unfolding run_transition
  event_sync m ev = elim (enabled m ev) [
    | none ↦ (m, ok false)
    | some tgt ↦ answer (run_transition m.state_ tgt m)
  ]
