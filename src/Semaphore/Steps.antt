-- ===== src/Semaphore/Steps.antt =====
-- Threads that use one semaphore of src/Semaphore.cpp.
use brenlib.Prelude.{
  ℕ, suc, ◌+◌, ◌^◌, ◌≤◌, ◌<◌, true, false, ok, err, logic_error, ◌≡◌, refl, arith,
}
use brenlib.Semaphore.{
  Semaphore, create, destruct, count, inc, try_dec, waits, throws, takes, dec_turn, resume,
}

-- The semaphore with what was done to it: increments, and decrements that returned.
pub record History : Type 0 where
  pub sem : Semaphore
  pub incs : ℕ
  pub decs : ℕ

pub data Step (s : History) : History → Type 0 where
  increments : (t : Semaphore) → inc s.sem ≡ ok t → Step s (record s { sem = t; incs = suc s.incs })
  -- `try_dec`, whatever it answers
  tries :
      (t : Semaphore)
      → try_dec s.sem ≡ ok (t, true)
      → Step s (record s { sem = t; decs = suc s.decs })
  declines : (t : Semaphore) → try_dec s.sem ≡ ok (t, false) → Step s (record s { sem = t })
  -- a first turn of `dec`
  takes_one :
      (t : Semaphore) → dec_turn s.sem ≡ takes t → Step s (record s { sem = t; decs = suc s.decs })
  blocks : (t : Semaphore) → dec_turn s.sem ≡ waits t → Step s (record s { sem = t })
  -- a later turn, of a thread that was notified
  wakes :
      (t : Semaphore) (n : ℕ)
      → s.sem.convar_a.notified ≡ suc n
      → dec_turn (resume n s.sem) ≡ takes t
      → Step s (record s { sem = t; decs = suc s.decs })
  waits_again :
      (t : Semaphore) (n : ℕ)
      → s.sem.convar_a.notified ≡ suc n
      → dec_turn (resume n s.sem) ≡ waits t
      → Step s (record s { sem = t })
  leaves :
      (n : ℕ)
      → s.sem.convar_a.notified ≡ suc n
      → dec_turn (resume n s.sem) ≡ throws
      → Step s (record s { sem = resume n s.sem })
  -- a thread wakes without a notification
  stirs :
      (n : ℕ)
      → s.sem.convar_a.waiting ≡ suc n
      → Step s (record s {
        sem = record (s.sem) {
          convar_a = record { waiting = n; notified = suc s.sem.convar_a.notified };
        };
      })
  destructs : Step s (record s { sem = destruct s.sem })

pub data Reach (s : History) : History → Type 0 where
  next : {u : History} (v : History) → Step u v → Reach s u → Reach s v
  here : Reach s s

abbrev pub begin : ℕ → History
begin n = record { sem = create n; incs = 0; decs = 0 }

-- The counter is what was put in less what was taken out.
pub record Balanced (n : ℕ) (s : History) : Type 0 where
  pub balance : s.sem.count_a + s.decs ≡ n + s.incs

Step-Balanced :
    (n : ℕ) {s t : History} → Step s t → n + t.incs < 2 ^ 16 → Balanced n s → Balanced n t
unfolding inc try_dec dec_turn destruct
Step-Balanced n (increments t e) h b = ground arith
Step-Balanced n (tries t e) h b = ground arith
Step-Balanced n (declines t e) h b = ground arith
Step-Balanced n (takes_one t e) h b = ground arith
Step-Balanced n (blocks t e) h b = ground arith
Step-Balanced n (wakes t k k' e) h b = ground arith
Step-Balanced n (waits_again t k k' e) h b = ground arith
Step-Balanced n (leaves k k' e) h b = ground arith
Step-Balanced n (stirs k e) h b = ground arith
Step-Balanced n destructs h b = ground arith

incs_mono : {s t : History} → Step s t → s.incs ≤ t.incs
incs_mono (increments t e) = omega arith
incs_mono (tries t e) = omega arith
incs_mono (declines t e) = omega arith
incs_mono (takes_one t e) = omega arith
incs_mono (blocks t e) = omega arith
incs_mono (wakes t k k' e) = omega arith
incs_mono (waits_again t k k' e) = omega arith
incs_mono (leaves k k' e) = omega arith
incs_mono (stirs k e) = omega arith
incs_mono destructs = omega arith

-- Whatever the threads do in whatever order, as long as fewer than 2 ^ 16 are put in: the counter
-- is the starting count and the increments less the decrements that returned.
pub Reach-Balanced :
    (n : ℕ) {s : History}
    → Reach (begin n) s
    → n + s.incs < 2 ^ 16
    → s.sem.count_a + s.decs ≡ n + s.incs
unfolding create
Reach-Balanced n here h = omega arith
Reach-Balanced n (next {u = u} v st r) h =
    (Step-Balanced n st h
      (record { balance = Reach-Balanced n r (omega (arith, incs_mono st)) })).balance

-- A semaphore that is destructed refuses every call, and lets no waiting thread take one.
pub destruct_refuses :
    (s : Semaphore)
    → (count (destruct s) ≡ err logic_error)
      × (inc (destruct s) ≡ err logic_error)
      × (try_dec (destruct s) ≡ err logic_error)
      × (dec_turn (destruct s) ≡ throws)
unfolding count inc try_dec dec_turn destruct
destruct_refuses s = (refl, refl, refl, refl)
