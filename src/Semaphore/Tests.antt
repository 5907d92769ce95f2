-- ===== src/Semaphore/Tests.antt =====
-- Runs of a semaphore.
use brenlib.Prelude.{ℕ, ◌+◌, false, ok, err, logic_error, ◌≡◌, refl, arith}
use brenlib.Semaphore.{
  Semaphore, create, destruct, count, inc, try_dec, waits, takes, dec_turn, resume,
}
use brenlib.Semaphore.Steps.{
  History, Reach, here, next, increments, blocks, wakes, begin, Reach-Balanced,
}

abbrev semaphore : ℕ → ℕ → ℕ → Semaphore
semaphore n w k = record (create n) { convar_a = record { waiting = w; notified = k } }

-- One waits, one is put in, and the one that waited takes it.
abbrev one_waits : History
one_waits = record { sem = semaphore 0 1 0; incs = 0; decs = 0 }

abbrev after_inc : History
after_inc = record { sem = semaphore 1 0 1; incs = 1; decs = 0 }

abbrev after_dec : History
after_dec = record { sem = semaphore 0 0 0; incs = 1; decs = 1 }

runs :
    (count (create 3) ≡ ok 3)
    × (inc (create 3) ≡ ok (create 4))
    × (try_dec (create 0) ≡ ok (create 0, false))
    × (dec_turn (create 1) ≡ takes (create 0))
    × (inc (destruct (create 3)) ≡ err logic_error)
unfolding create count inc try_dec dec_turn destruct
runs = (refl, refl, refl, refl, refl)

waits_here : dec_turn (begin 0).sem ≡ waits one_waits.sem
unfolding dec_turn create
waits_here = refl

one_inc : inc one_waits.sem ≡ ok after_inc.sem
unfolding inc create
one_inc = refl

takes_here : dec_turn (resume 0 after_inc.sem) ≡ takes after_dec.sem
unfolding dec_turn create
takes_here = refl

reached_inc : Reach (begin 0) after_inc
reached_inc =
    next after_inc (increments after_inc.sem one_inc)
      (next one_waits (blocks one_waits.sem waits_here) here)

reached : Reach (begin 0) after_dec
reached = next after_dec (wakes after_dec.sem 0 refl takes_here) reached_inc

Reach-Balanced_example : after_dec.sem.count_a + 1 ≡ 0 + 1
Reach-Balanced_example = Reach-Balanced 0 reached (omega arith)
