-- ===== src/StateMachine/Running/Handlers.antt =====
-- Synchronous events with a handler, in hdr/bren/StateMachine.hpp.
use brenlib.Prelude.{
  ℕ, Bool, true, false, if◌then◌else◌, [], none, some, ok, err, Error, ◌≡◌, arith,
}
use brenlib.StateMachine.{Machine, Target, TransFunc}
use brenlib.StateMachine.Running.{call_all, arrive, settle, close, enabled, event_sync}

module _ {W : Type 0} where
  -- A handler that returns decides where an unobserved machine goes: to the target if it returns
  -- true, and nowhere if it returns false. Its effect on the world is kept.
  pub event_sync_handler :
      (m : Machine W) (ev : ℕ) (tgt : Target W) (f : TransFunc W) (w : W) (b : Bool)
      → enabled m ev ≡ some tgt
      → tgt.on_trans ≡ some f
      → tgt.in_state ≡ none
      → m.obj_ ≡ true
      → m.callbacks_ ≡ []
      → f m.world ≡ (w, ok b)
      → ((event_sync m ev).1 ≡ ok true)
        × ((event_sync m ev).0.state_ ≡ (if b then tgt.target else m.state_))
        × ((event_sync m ev).0.world ≡ w)
  unfolding event_sync arrive settle close call_all
  event_sync_handler m ev tgt f w b h hf hs ho hc hw = ground arith

  -- A handler that throws leaves the state as it is; `event` still answers true.
  pub event_sync_throwing :
      (m : Machine W) (ev : ℕ) (tgt : Target W) (f : TransFunc W) (w : W) (e : Error)
      → enabled m ev ≡ some tgt
      → tgt.on_trans ≡ some f
      → m.obj_ ≡ true
      → f m.world ≡ (w, err e)
      → ((event_sync m ev).1 ≡ ok true)
        × ((event_sync m ev).0.state_ ≡ m.state_)
        × ((event_sync m ev).0.active_ ≡ false)
  unfolding event_sync close settle
  event_sync_throwing m ev tgt f w e h hf ho hw = ground arith
