-- ===== src/StateMachine/Running/Reach.antt =====
-- Which states a machine of hdr/bren/StateMachine.hpp gets to by synchronous events.
use brenlib.Prelude.{
  ℕ, true, false, List, [], ◌∷◌, none, some, Result, ok, err, ◌≡◌, ◌≢◌, refl, arith, ◌⊎◌, inl, inr,
  Option-cases, subst, sym, ◌∙◌,
}
use brenlib.Prelude.Maps.{lookup, nat_key}
use brenlib.StateMachine.{Machine, Target, EventMap, entry}
use brenlib.StateMachine.Running.{answer, enabled, event_sync, run_transition}
use brenlib.StateMachine.Running.Safety.{SameSetup, Outcome, destination-in, run_transition-Outcome}

-- The digraph that the table `trans_` is.
pub data Leads {W : Type 0} (trans : List (ℕ × EventMap W)) (from : ℕ) : ℕ → Type 0 where
  here : Leads trans from from
  along :
      {s : ℕ} (ev : ℕ) (tgt : Target W)
      → Leads trans from s
      → lookup ev (entry s trans) ≡ some tgt
      → Leads trans from tgt.target

enabled-Leads :
    {W : Type 0} (m : Machine W) (ev : ℕ) (tgt : Target W)
    → enabled m ev ≡ some tgt
    → (m.active_ ≡ false) × (m.state_ ≢ m.end_) × (lookup ev (entry m.state_ m.trans_) ≡ some tgt)
unfolding enabled entry
enabled-Leads m ev tgt h = (
  ground arith,
  ground arith,
  elim (Option-cases (lookup m.state_ m.trans_)) [
    | inl e ↦ ground arith
    | inr (es, e) ↦ ground arith
  ],
)

answered {ℓ} :
    {W : Type 0} (P : Machine W → Type ℓ) (r : Machine W × Result (Unit {0}))
    → P r.0
    → P (answer r).0
answered P (m, ok u) p = p
answered P (m, err e) p = p

-- A call of `event` that is not accepted changes nothing.
event_sync-cases {ℓ} :
    {W : Type 0} (P : Machine W → Type ℓ) (m : Machine W) (ev : ℕ)
    → P m
    → ((tgt : Target W) → enabled m ev ≡ some tgt → P (run_transition m.state_ tgt m).0)
    → P (event_sync m ev).0
unfolding event_sync
event_sync-cases P m ev same moved = elim (Option-cases (enabled m ev)) [
  | inl e ↦ rw (e, event_sync) same
  | inr (tgt, e) ↦ rw (e, event_sync) (answered P (run_transition m.state_ tgt m) (moved tgt e))
]

-- Events triggered one after the other; what each answers does not matter here.
unfoldable pub run_events : {W : Type 0} → Machine W → List ℕ → Machine W
run_events m [] = m
run_events m (ev ∷ evs) = run_events (event_sync m ev).0 evs

Ended-or-Hung :
    {W : Type 0} (m : Machine W) (tgt : Target W) (r : Machine W × Result (Unit {0}))
    → Outcome m tgt r
    → SameSetup m r.0 × ((r.0.state_ ≡ m.state_) ⊎ (r.0.state_ ≡ tgt.target))
Ended-or-Hung m tgt (m', ok u) o = (
  o.1.setup,
  subst (λ st. (st ≡ m.state_) ⊎ (st ≡ tgt.target)) (sym o.1.state_is) (destination-in m tgt),
)
Ended-or-Hung m tgt (m', err e) o = (
  o.2.setup,
  subst (λ st. (st ≡ m.state_) ⊎ (st ≡ tgt.target)) (sym o.2.state_is) (destination-in m tgt),
)

-- Where a machine may be after it started from `from` with the table `trans`.
record At {W : Type 0} (trans : List (ℕ × EventMap W)) (end from : ℕ) (m : Machine W) : Type 0 where
  table : m.trans_ ≡ trans
  end_is : m.end_ ≡ end
  there : Leads trans from m.state_

Leads-step :
    {W : Type 0} (trans : List (ℕ × EventMap W)) (from s s' : ℕ) (ev : ℕ) (tgt : Target W)
    → Leads trans from s
    → lookup ev (entry s trans) ≡ some tgt
    → (s' ≡ s) ⊎ (s' ≡ tgt.target)
    → Leads trans from s'
Leads-step trans from s s' ev tgt l e (inl p) = subst (Leads trans from) (sym p) l
Leads-step trans from s s' ev tgt l e (inr p) = subst (Leads trans from) (sym p) (along ev tgt l e)

event_sync-At :
    {W : Type 0} (trans : List (ℕ × EventMap W)) (end from : ℕ) (m : Machine W) (ev : ℕ)
    → At trans end from m
    → At trans end from (event_sync m ev).0
event_sync-At trans end from m ev a = event_sync-cases (At trans end from) m ev a λ tgt e.
    let (setup, state_in) = Ended-or-Hung m tgt _ (run_transition-Outcome m tgt) in
    let edge = (enabled-Leads m ev tgt e).2 in
    record {
      table = setup.same_trans ∙ a.table;
      end_is = setup.same_end ∙ a.end_is;
      there =
          Leads-step trans from m.state_ _ ev tgt a.there
            (subst (λ t. lookup ev (entry m.state_ t) ≡ some tgt) a.table edge) state_in;
    }

run_events-At :
    {W : Type 0} (trans : List (ℕ × EventMap W)) (end from : ℕ) (m : Machine W) (evs : List ℕ)
    → At trans end from m
    → At trans end from (run_events m evs)
unfolding run_events
run_events-At trans end from m [] a = a
run_events-At trans end from m (ev ∷ evs) a =
    run_events-At trans end from (event_sync m ev).0 evs (event_sync-At trans end from m ev a)

-- Whatever handlers and observers do, synchronous events take the machine only along registered
-- transitions, and leave the table as it is.
pub run_events-Leads :
    {W : Type 0} (m : Machine W) (evs : List ℕ)
    → Leads m.trans_ m.state_ (run_events m evs).state_ × ((run_events m evs).trans_ ≡ m.trans_)
run_events-Leads m evs =
    let a =
      run_events-At m.trans_ m.end_ m.state_ m evs
        (record { table = refl; end_is = refl; there = here }) in
    (a.there, a.table)

run_events-stay :
    {W : Type 0} (m : Machine W) (evs : List ℕ)
    → ((ev : ℕ) → enabled m ev ≡ none)
    → run_events m evs ≡ m
unfolding run_events event_sync
run_events-stay m [] h = refl
run_events-stay m (ev ∷ evs) h = rw (h ev, event_sync) (run_events-stay m evs h)

-- A machine in its end state, and one that an exception left active, never changes again by
-- synchronous events.
pub run_events_stuck :
    {W : Type 0} (m : Machine W) (evs : List ℕ)
    → (m.state_ ≡ m.end_) ⊎ (m.active_ ≡ true)
    → run_events m evs ≡ m
unfolding enabled
run_events_stuck m evs h = run_events-stay m evs (λ ev. ground arith)
