-- ===== src/StateMachine/Running/Safety.antt =====
-- What a synchronous `event` does, in hdr/bren/StateMachine.hpp.
use brenlib.Prelude.{
  ℕ, Bool, true, false, ◌==◌, if◌then◌else◌, [], Option, none, some, Result, ok, err, system_error,
  ◌≡◌, refl, arith, ◌⊎◌, inl, inr, if_ind, List, ◌∷◌,
}
use brenlib.Prelude.Text.{Text}
use brenlib.StateMachine.{Machine, Target, TransFunc, StateFunc, Callback, name_of}
use brenlib.StateMachine.Running.{
  Exit, done, thrown, thrown_locked, call_all, arrive, settle, move, enter, finish, run_transition,
}

-- The state that a handler's answer leads to.
abbrev answer_state : ℕ → ℕ → Result Bool → ℕ
answer_state from to (ok accepted) = if accepted then to else from
answer_state from to (err e) = from

answer_state-in :
    (from to : ℕ) (r : Result Bool)
    → (answer_state from to r ≡ from) ⊎ (answer_state from to r ≡ to)
answer_state-in from to (ok true) = inr refl
answer_state-in from to (ok false) = inl refl
answer_state-in from to (err e) = inl refl

-- Is the mutex held?
abbrev is_locked : Exit → Bool
is_locked done = false
is_locked thrown = false
is_locked thrown_locked = true

module _ {W : Type 0} where
  -- What no transition changes.
  pub record SameSetup (m m' : Machine W) : Type 0 where
    pub same_end : m'.end_ ≡ m.end_
    pub same_start : m'.start_ ≡ m.start_
    pub same_trans : m'.trans_ ≡ m.trans_
    pub same_states : m'.states_ ≡ m.states_
    pub same_events : m'.events_ ≡ m.events_

  -- Does an observer throw, of those that are called for a state?
  abbrev pub throws : ℕ → Text → List (Callback W) → W → Bool
  throws st name [] w = false
  throws st name (f ∷ fs) w =
      let later = throws st name fs (f st name w).0 in
      elim ((f st name w).1) [ err e ↦ true | ok keep ↦ later ]

  abbrev state_throws : Machine W → ℕ → W → Bool
  state_throws m st w = throws st (name_of m.states_ st) m.callbacks_ w

  -- Does an observer of the state that a handler's answer leads to throw? A handler that throws leads
  -- to no call of observers.
  abbrev answer_throws : Machine W → ℕ → ℕ → W × Result Bool → Bool
  answer_throws m from to (w, ok accepted) = state_throws m (if accepted then to else from) w
  answer_throws m from to (w, err e) = false

  -- The state that a transition leads to: the target, or what the handler answers; and the state as it
  -- is if there is no object to call the handler on.
  abbrev destination_of : Machine W → ℕ → ℕ → Option (TransFunc W) → ℕ
  destination_of m from to none = to
  destination_of m from to (some f) = if m.obj_ then answer_state from to (f m.world).1 else from

  abbrev throws_of : Machine W → ℕ → ℕ → Option (TransFunc W) → Bool
  throws_of m from to none = state_throws m to m.world
  throws_of m from to (some f) = if m.obj_ then answer_throws m from to (f m.world) else false

  abbrev pub destination : Machine W → Target W → ℕ
  destination m tgt = destination_of m m.state_ tgt.target tgt.on_trans

  abbrev pub observer_throws : Machine W → Target W → Bool
  observer_throws m tgt = throws_of m m.state_ tgt.target tgt.on_trans

  call_all-throws :
      (st : ℕ) (name : Text) (fs : List (Callback W)) (w : W)
      → is_locked (call_all st name fs w).2 ≡ throws st name fs w
  unfolding call_all
  call_all-throws st name [] w = refl
  call_all-throws st name (f ∷ fs) w = ground (arith, call_all-throws st name fs (f st name w).0)

  -- Between the parts of `transition_`: the state is there, the rest of the set-up stands, and the
  -- mutex is held if an observer threw.
  record Between (m : Machine W) (st : ℕ) (thr : Bool) (r : Machine W × Exit) : Type 0 where
    setup : SameSetup m r.0
    state_is : r.0.state_ ≡ st
    active_is : r.0.active_ ≡ m.active_
    obj_is : r.0.obj_ ≡ m.obj_
    locked : is_locked r.1 ≡ thr

  same_setup : (m : Machine W) → SameSetup m m
  same_setup m = record {
    same_end = refl;
    same_start = refl;
    same_trans = refl;
    same_states = refl;
    same_events = refl;
  }

  -- The observers are called after a world is left behind by a handler.
  arrive-Between :
      (m : Machine W) (st : ℕ) (w : W)
      → Between m st (state_throws m st w) (arrive st (record m { world = w }))
  unfolding arrive
  arrive-Between m st w = record {
    setup = record {
      same_end = refl;
      same_start = refl;
      same_trans = refl;
      same_states = refl;
      same_events = refl;
    };
    state_is = refl;
    active_is = refl;
    obj_is = refl;
    locked = call_all-throws st (name_of m.states_ st) m.callbacks_ w;
  }

  settle-Between :
      (m : Machine W) (from to : ℕ) (r : W × Result Bool)
      → m.state_ ≡ from
      → Between m (answer_state from to r.1) (answer_throws m from to r) (settle from to m r)
  unfolding settle
  settle-Between m from to (w, ok true) e = arrive-Between m to w
  settle-Between m from to (w, ok false) e = arrive-Between m from w
  settle-Between m from to (w, err x) e = ground arith

  call-Between :
      (m : Machine W) (from to : ℕ) (f : TransFunc W) (o : Bool)
      → m.state_ ≡ from
      → Between m
          (if o then answer_state from to (f m.world).1 else from)
          (if o then answer_throws m from to (f m.world) else false)
          (if o then settle from to m (f m.world) else (m, thrown))
  call-Between m from to f true e = settle-Between m from to (f m.world) e
  call-Between m from to f false e = record {
    setup = same_setup m;
    state_is = e;
    active_is = refl;
    obj_is = refl;
    locked = refl;
  }

  move-Between :
      (m : Machine W) (from to : ℕ) (f : Option (TransFunc W))
      → m.state_ ≡ from
      → Between m (destination_of m from to f) (throws_of m from to f) (move from to f m)
  unfolding move
  move-Between m from to none e = arrive-Between m to m.world
  move-Between m from to (some f) e = call-Between m from to f m.obj_ e

  enter-Between :
      (m : Machine W) (st : ℕ) (thr : Bool) (g : Option (StateFunc W)) (r : Machine W × Exit)
      → Between m st thr r
      → Between m st thr (enter g r)
  unfolding enter
  enter-Between m st thr none (m', done) b = b
  enter-Between m st thr (some g) (m', done) b = ground arith
  enter-Between m st thr g (m', thrown) b = b
  enter-Between m st thr g (m', thrown_locked) b = b

  -- The machine after a transition that ended.
  pub record Ended (m : Machine W) (tgt : Target W) (m' : Machine W) : Type 0 where
    pub setup : SameSetup m m'
    pub state_is : m'.state_ ≡ destination m tgt
    pub idle : m'.active_ ≡ false
    pub unobserved : m'.callbacks_ ≡ []
    pub released : m'.obj_ ≡ (if destination m tgt == m.end_ then false else m.obj_)

  -- The machine after an exception left `transition_`.
  pub record Hung (m : Machine W) (tgt : Target W) (m' : Machine W) : Type 0 where
    pub setup : SameSetup m m'
    pub state_is : m'.state_ ≡ destination m tgt
    pub busy : m'.active_ ≡ true
    pub kept : m'.obj_ ≡ m.obj_

  abbrev pub Outcome : Machine W → Target W → Machine W × Result (Unit {0}) → Type 0
  Outcome m tgt (m', ok u) = (observer_throws m tgt ≡ false) × Ended m tgt m'
  Outcome m tgt (m', err e) = (observer_throws m tgt ≡ true) × (e ≡ system_error) × Hung m tgt m'

  finish-Outcome :
      (m : Machine W) (tgt : Target W) (r : Machine W × Exit)
      → Between (record m { active_ = true }) (destination m tgt) (observer_throws m tgt) r
      → Outcome m tgt (finish r)
  unfolding finish
  finish-Outcome m tgt (m', done) b = ground arith
  finish-Outcome m tgt (m', thrown) b = ground arith
  finish-Outcome m tgt (m', thrown_locked) b = ground arith

  destination_of-in :
      (m : Machine W) (from to : ℕ) (f : Option (TransFunc W))
      → (destination_of m from to f ≡ from) ⊎ (destination_of m from to f ≡ to)
  destination_of-in m from to none = inr refl
  destination_of-in m from to (some f) =
      if_ind (λ st. (st ≡ from) ⊎ (st ≡ to)) m.obj_ (answer_state-in from to (f m.world).1)
        (inl refl)

  pub destination-in :
      (m : Machine W) (tgt : Target W)
      → (destination m tgt ≡ m.state_) ⊎ (destination m tgt ≡ tgt.target)
  destination-in m tgt = destination_of-in m m.state_ tgt.target tgt.on_trans

  -- Where its log entries can be written, a transition from the current state leads to the target, or
  -- where the handler's answer says: it stays in its state for `false`, for an exception, and where
  -- there is no object. If no observer that is told of that state throws, it ends: the machine is idle,
  -- no observer is left, and the object is released exactly in the end state. If one throws, a
  -- `system_error` leaves `transition_`, the machine stays active, and the object is kept. The table
  -- never changes.
  pub run_transition-Outcome :
      (m : Machine W) (tgt : Target W) → Outcome m tgt (run_transition m.state_ tgt m)
  unfolding run_transition
  run_transition-Outcome m tgt =
      let begun : Machine W = record m { active_ = true } in
      let dest = destination m tgt in
      let thr = observer_throws m tgt in
      let moved = move m.state_ tgt.target tgt.on_trans begun in
      let between = move-Between begun m.state_ tgt.target tgt.on_trans refl in
      finish-Outcome m tgt (enter tgt.in_state moved)
        (enter-Between begun dest thr tgt.in_state moved between)
