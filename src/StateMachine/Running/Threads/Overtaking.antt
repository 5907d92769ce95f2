-- ===== src/StateMachine/Running/Threads/Overtaking.antt =====
-- Two asynchronous events that are accepted before a thread of them runs.
use brenlib.Prelude.{ℕ, true, false, List, [], ◌∷◌, none, some, ◌≡◌, refl, arith, subst}
use brenlib.StateMachine.{Machine, Target}
use brenlib.StateMachine.Running.{call_all, arrive, close, enabled}
use brenlib.StateMachine.Running.Threads.{
  Job, Phase, before, marked, arrived, closing, After, goes, advance, System, idle, started,
  event_async, after_turn, Step, posts, turns, Steps, here, next,
}

-- Nothing is called when this transition is made.
abbrev pub Silent : {W : Type 0} → Target W → Type 0
Silent tgt = (tgt.on_trans ≡ none) × (tgt.in_state ≡ none)

module _ {W : Type 0} where
  abbrev with_threads : Machine W → List (Job W × Phase) → System W
  with_threads m js = record { machine = m; threads = js; aborted = false }

  -- A turn of the first thread whose effect is known.
  turn_to :
      (m : Machine W) (j : Job W) (p : Phase) (rest : List (Job W × Phase)) (r : Machine W × After)
      → advance j p m ≡ r
      → Step (with_threads m ((j, p) ∷ rest)) (after_turn [] rest j r)
  turn_to m j p rest r e =
      subst
        (λ (x : Machine W × After). Step (with_threads m ((j, p) ∷ rest)) (after_turn [] rest j x))
        e (turns [] rest j p refl refl)

  -- What a silent transition leaves.
  abbrev landed_at : Machine W → ℕ → Machine W
  landed_at m st = record m { active_ = true; state_ = st; callbacks_ = [] }

  marked-Silent :
      (m : Machine W) (j : Job W)
      → Silent j.target
      → m.callbacks_ ≡ []
      → advance j marked (record m { active_ = true }) ≡ (landed_at m j.target.target, goes arrived)
  unfolding advance arrive call_all
  marked-Silent m j q c = rw (q.0, c) refl

  arrived-Silent :
      (m : Machine W) (j : Job W) → Silent j.target → advance j arrived m ≡ (m, goes closing)
  unfolding advance
  arrived-Silent m j q = rw q.1 refl

  -- The first thread runs to its end.
  run_first :
      (s : System W) (m : Machine W) (j : Job W) (rest : List (Job W × Phase))
      → Silent j.target
      → m.callbacks_ ≡ []
      → Steps s (with_threads m ((j, before) ∷ rest))
      → Steps s (with_threads (close (landed_at m j.target.target)) rest)
  unfolding advance
  run_first s m j rest q c r =
      next
        (next
          (next (next r (turn_to m j before rest _ refl))
            (turn_to _ j marked rest _ (marked-Silent m j q c)))
          (turn_to _ j arrived rest _ (arrived-Silent _ j q)))
        (turn_to _ j closing rest _ refl)

  closed-silent :
      (m : Machine W) (st : ℕ)
      → ((close (landed_at m st)).state_ ≡ st) × ((close (landed_at m st)).callbacks_ ≡ [])
  unfolding close
  closed-silent m st = (refl, refl)

  event_async-enabled :
      (m : Machine W) (ev : ℕ) (tgt : Target W)
      → enabled m ev ≡ some tgt
      → event_async m ev ≡ (started m tgt, before) ∷ []
  unfolding event_async
  event_async-enabled m ev tgt h = rw (h, event_async) refl

  both_posted :
      (m : Machine W) (ev ev' : ℕ) (tgt tgt' : Target W)
      → enabled m ev ≡ some tgt
      → enabled m ev' ≡ some tgt'
      → Steps (idle m) (with_threads m ((started m tgt, before) ∷ (started m tgt', before) ∷ []))
  both_posted m ev ev' tgt tgt' h h' =
      subst (λ (js : List (Job W × Phase)). Steps (idle m) (with_threads m js))
        (ground (arith, event_async-enabled m ev tgt h, event_async-enabled m ev' tgt' h'))
        (next (next here (posts ev refl)) (posts ev' refl))

-- From an idle machine with two events registered for its state, both may be accepted before a
-- thread runs. The second transition is then made from the state that the first one reached: with
-- no handlers and no observers, out of the end state if the first one goes there.
pub leaves_end :
    {W : Type 0} (m : Machine W) (ev ev' : ℕ) (tgt tgt' : Target W)
    → enabled m ev ≡ some tgt
    → enabled m ev' ≡ some tgt'
    → m.callbacks_ ≡ []
    → (tgt.on_trans ≡ none) × (tgt.in_state ≡ none)
    → (tgt'.on_trans ≡ none) × (tgt'.in_state ≡ none)
    → (s t : System W) × Steps (idle m) s
      × (s.machine.state_ ≡ tgt.target)
      × Steps s t
      × (t.machine.state_ ≡ tgt'.target)
leaves_end m ev ev' tgt tgt' h h' c n n' =
    let one = close (landed_at m tgt.target) in
    let second = started m tgt' in
    let halfway = with_threads one ((second, before) ∷ []) in
    (
      halfway,
      with_threads (close (landed_at one tgt'.target)) [],
      run_first (idle m) m (started m tgt) ((second, before) ∷ []) n c
          (both_posted m ev ev' tgt tgt' h h'),
      (closed-silent m tgt.target).0,
      run_first halfway one second [] n' (closed-silent m tgt.target).1 here,
      (closed-silent one tgt'.target).0,
    )
