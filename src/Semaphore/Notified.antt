-- ===== src/Semaphore/Notified.antt =====
-- No notification of src/Semaphore.cpp is lost.
use brenlib.Prelude.{◌≤◌, false, ◌≡◌, ◌⊎◌}
use brenlib.Semaphore.Steps.{History}

-- What can be taken has a notified thread for each unit, or no thread waits.
abbrev pub IsNotified : History → Type 0
IsNotified s =
    ((s.sem.destructing_a ≡ false) × (s.sem.count_a ≤ s.sem.convar_a.notified))
    ⊎ (s.sem.convar_a.waiting ≡ 0)
