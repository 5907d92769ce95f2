-- ===== src/StateMachine/Running/Threads/Serial.antt =====
-- Asynchronous events that wait for each other are synchronous ones.
use brenlib.Prelude.{
  ℕ, Bool, true, false, if◌then◌else◌, List, [], ◌∷◌, ◌++◌, Option, none, some, Result, ok, err,
  system_error, ◌≡◌, refl, arith, inl, inr, ◌∙◌, sym, ap, Option-cases, Bool-cases, subst,
}
use brenlib.StateMachine.{Machine, TransFunc, StateFunc}
use brenlib.StateMachine.Running.{
  Exit, done, thrown, thrown_locked, arrive, settle, move, enter, finish, run_transition, enabled,
  event_sync, answer,
}
use brenlib.StateMachine.Running.Reach.{run_events}
use brenlib.StateMachine.Running.Threads.{
  landed, call_or_land, call_in_state, Job, Phase, before, marked, answered, arrived, closing,
  After, goes, leaves, aborts, advance, System, idle, started, event_async, after_turn, posts,
  turns, Steps, here, next, posted, Waits,
}

module _ {W : Type 0} where
  -- What a thread does from a phase on, if it runs alone.
  resume : Job W → Phase → Machine W → Machine W × Result (Unit {0})
  resume j before m = run_transition j.from j.target m
  resume j marked m =
      finish (enter j.target.in_state (move j.from j.target.target j.target.on_trans m))
  resume j (answered r) m =
      finish (enter j.target.in_state (settle j.from j.target.target m (m.world, r)))
  resume j arrived m = finish (enter j.target.in_state (m, done))
  resume j closing m = finish (m, thrown)

  -- What a turn leaves, and what is left to do after it.
  rest_of : Job W → Machine W × After → Machine W × Result (Unit {0})
  rest_of j (m, goes p) = resume j p m
  rest_of j (m, leaves) = (m, ok tt)
  rest_of j (m, aborts) = (m, err system_error)

  finish-landed :
      (j : Job W) (r : Machine W × Exit) → finish (enter j.target.in_state r) ≡ rest_of j (landed r)
  unfolding resume rest_of finish enter
  finish-landed j (m, done) = refl
  finish-landed j (m, thrown) = refl
  finish-landed j (m, thrown_locked) = refl

  call_in_state-rest_of :
      (j : Job W) (g : Option (StateFunc W)) (m : Machine W)
      → finish (enter g (m, done)) ≡ rest_of j (call_in_state g m)
  unfolding rest_of resume enter finish
  call_in_state-rest_of j none m = refl
  call_in_state-rest_of j (some g) m = elim (Bool-cases m.obj_) [
    | inl e ↦ ground arith
    | inr e ↦ ground arith
  ]

  call_or_land-rest_of :
      (j : Job W) (f : Option (TransFunc W)) (m : Machine W)
      → finish (enter j.target.in_state (move j.from j.target.target f m))
        ≡ rest_of j (call_or_land j f m)
  unfolding rest_of resume move enter
  call_or_land-rest_of j none m = finish-landed j (arrive j.target.target m)
  call_or_land-rest_of j (some f) m = elim (Bool-cases m.obj_) [
    | inl e ↦ ground arith
    | inr e ↦ ground arith
  ]

  -- A turn is the beginning of what is left to do.
  resume-advance :
      (j : Job W) (p : Phase) (m : Machine W) → resume j p m ≡ rest_of j (advance j p m)
  unfolding resume advance settle run_transition rest_of
  resume-advance j before m = refl
  resume-advance j marked m = call_or_land-rest_of j j.target.on_trans m
  resume-advance j (answered (ok true)) m = finish-landed j (arrive j.target.target m)
  resume-advance j (answered (ok false)) m = finish-landed j (arrive j.from m)
  resume-advance j (answered (err e)) m = finish-landed j (m, thrown)
  resume-advance j arrived m = call_in_state-rest_of j j.target.in_state m
  resume-advance j closing m = finish-landed j (m, thrown)

abbrev failed : {A : Type 0} → Result A → Bool
failed (ok a) = false
failed (err e) = true

-- Does a call of `event_sync`, one event after the other, throw?
pub fails : {W : Type 0} → Machine W → List ℕ → Bool
fails m [] = false
fails m (ev ∷ evs) =
    let later = fails (event_sync m ev).0 evs in if failed (event_sync m ev).1 then true else later

only_one {ℓ} :
    {A : Type ℓ} (front back : List A) (x y : A)
    → x ∷ [] ≡ front ++ y ∷ back
    → (front ≡ []) × (back ≡ []) × (x ≡ y)
only_one [] back x y e = (refl, grind (arith), grind (arith))
only_one (z ∷ []) back x y e = grind (arith)
only_one (z ∷ z' ∷ front) back x y e = grind (arith)

none_left {ℓ} : {A : Type ℓ} (front back : List A) (x : A) → ¬ [] ≡ front ++ x ∷ back
none_left [] back x e = grind (arith)
none_left (y ∷ front) back x e = grind (arith)

module _ {W : Type 0} where
  -- A run after the events `evs`: no thread is left, or one, which is on the way to what the
  -- synchronous call does.
  data AfterEvents (first : Machine W) (evs : List ℕ) (s : System W) : Type 0 where
    settled :
        s.threads ≡ []
        → run_events first evs ≡ s.machine
        → fails first evs ≡ s.aborted
        → AfterEvents first evs s
    working :
        (j : Job W) (p : Phase)
        → s.threads ≡ (j, p) ∷ []
        → run_events first evs ≡ (resume j p s.machine).0
        → fails first evs ≡ failed (resume j p s.machine).1
        → s.aborted ≡ false
        → AfterEvents first evs s

  turn-AfterEvents :
      (first : Machine W) (evs : List ℕ) (j : Job W) (r : Machine W × After)
      → run_events first evs ≡ (rest_of j r).0
      → fails first evs ≡ failed (rest_of j r).1
      → AfterEvents first evs (after_turn [] [] j r)
  unfolding rest_of
  turn-AfterEvents first evs j (m, goes p) e f = working j p refl e f refl
  turn-AfterEvents first evs j (m, leaves) e f = settled refl e f
  turn-AfterEvents first evs j (m, aborts) e f = settled refl e f

  run_events-append :
      (m : Machine W) (evs : List ℕ) (ev : ℕ)
      → run_events m (evs ++ ev ∷ []) ≡ (event_sync (run_events m evs) ev).0
  unfolding run_events
  run_events-append m [] ev = refl
  run_events-append m (e ∷ evs) ev = run_events-append (event_sync m e).0 evs ev

  fails-append :
      (m : Machine W) (evs : List ℕ) (ev : ℕ)
      → fails m evs ≡ false
      → fails m (evs ++ ev ∷ []) ≡ failed (event_sync (run_events m evs) ev).1
  unfolding fails run_events
  fails-append m [] ev h = ground arith
  fails-append m (e ∷ evs) ev h = ground (arith, fails-append (event_sync m e).0 evs ev)

  failed-answer :
      (r : Machine W × Result (Unit {0}))
      → (failed (answer r).1 ≡ failed r.1) × ((answer r).0 ≡ r.0)
  failed-answer (m, ok u) = (refl, refl)
  failed-answer (m, err e) = (refl, refl)

  -- A call of `event` while no thread runs.
  posts-AfterEvents :
      (first : Machine W) (evs : List ℕ) (s : System W) (ev : ℕ)
      → s.aborted ≡ false
      → s.threads ≡ []
      → run_events first evs ≡ s.machine
      → fails first evs ≡ s.aborted
      → AfterEvents first
          (evs ++ ev ∷ [])
          (record s { threads = s.threads ++ event_async s.machine ev })
  unfolding event_sync event_async resume
  posts-AfterEvents first evs s ev a t e f =
      let e' = run_events-append first evs ev in
      let f' = fails-append first evs ev (f ∙ a) in
      elim (Option-cases (enabled s.machine ev)) [
        | inl n ↦ settled (ground arith) (ground (arith, e', e)) (ground (arith, f', e))
        | inr (tgt, n) ↦
            let r = failed-answer (run_transition s.machine.state_ tgt s.machine) in
            working (started s.machine tgt) before (ground arith) (ground (arith, e', e, r.1))
              (ground (arith, f', e, r.0)) a
      ]

  turns-AfterEvents :
      (first : Machine W) (evs : List ℕ) (s : System W) (front back : List (Job W × Phase))
      (j : Job W) (p : Phase)
      → s.aborted ≡ false
      → s.threads ≡ front ++ (j, p) ∷ back
      → AfterEvents first evs s
      → AfterEvents first evs (after_turn front back j (advance j p s.machine))
  turns-AfterEvents first evs s front back j p a t (settled n e f) =
      absurd (none_left front back (j, p) (sym n ∙ t))
  turns-AfterEvents first evs s front back j p a t (working j' p' n e f _) =
      let (fe, be, same) = only_one front back (j', p') (j, p) (sym n ∙ t) in
      let shape =
        subst
          (λ (q : Job W × Phase).
            AfterEvents first evs (after_turn [] [] q.0 (advance q.0 q.1 s.machine)))
          same
          (turn-AfterEvents first evs j' (advance j' p' s.machine)
            (e ∙ ap (λ x. x.0) (resume-advance j' p' s.machine))
            (f ∙ ap (λ x. failed x.1) (resume-advance j' p' s.machine))) in
      rw (fe, be) shape

  -- Asynchronous events, each after the threads of those before it have ended.
  Steps-AfterEvents :
      (m : Machine W) (s : System W) (r : Steps (idle m) s) → Waits r → AfterEvents m (posted r) s
  unfolding posted run_events fails
  Steps-AfterEvents m s here w = settled refl refl refl
  Steps-AfterEvents m s (next {t = u} r (posts ev a)) (t, w) = elim (Steps-AfterEvents m u r w) [
    | settled n e f ↦ posts-AfterEvents m (posted r) u ev a t e f
    | working j p n e f b ↦ absurd (none_left [] [] (j, p) (sym t ∙ n))
  ]
  Steps-AfterEvents m s (next r (turns front back j p a e)) w =
      turns-AfterEvents m (posted r) _ front back j p a e (Steps-AfterEvents m _ r w)

-- When no event is posted while a thread runs, then, whenever no thread is left, the machine is what
-- synchronous calls for the same events make of it, and the program was ended exactly when one of
-- these calls throws.
pub waiting-run_events :
    {W : Type 0} (m : Machine W) (s : System W) (r : Steps (idle m) s)
    → Waits r
    → s.threads ≡ []
    → (s.machine ≡ run_events m (posted r)) × (s.aborted ≡ fails m (posted r))
waiting-run_events m s r w t = elim (Steps-AfterEvents m s r w) [
  | settled n e f ↦ (sym e, sym f)
  | working j p n e f b ↦ absurd (none_left [] [] (j, p) (sym t ∙ n))
]
