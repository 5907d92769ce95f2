-- ===== src/Semaphore.antt =====
-- src/Semaphore.cpp: a counter of 16 bits. Every method holds the mutex but for its first test of
-- `destructing_a`. The condition variable is the threads that wait on it, and those that were notified,
-- or woke by themselves, and have not had the mutex since.
pub mod Steps
pub mod Notified
mod Tests
use brenlib.Prelude.{
  ℕ, ◌+◌, ◌-◌, ◌%◌, ◌^◌, Bool, true, false, not, ◌==◌, if◌then◌else◌, List, [], ◌∷◌, ◌++◌, Result,
  ok, err, Error, logic_error, ◌>>=◌, ◌>>◌, fcet,
}

-- std::condition_variable
pub record Convar : Type 0 where
  pub waiting : ℕ
  pub notified : ℕ

abbrev pub quiet : Convar
quiet = record { waiting = 0; notified = 0 }

abbrev pub notify_one : Convar → Convar
notify_one v =
    if v.waiting == 0 then v else record v { waiting = v.waiting - 1; notified = v.notified + 1 }

abbrev pub notify_all : Convar → Convar
notify_all v = record v { waiting = 0; notified = v.notified + v.waiting }

pub record Semaphore : Type 0 where
  pub count_a : ℕ
  pub destructing_a : Bool
  pub convar_a : Convar

pub create : ℕ → Semaphore
create n = record { count_a = n; destructing_a = false; convar_a = quiet }

-- The destructor, as one step.
pub destruct : Semaphore → Semaphore
destruct s = record s { destructing_a = true; convar_a = notify_all s.convar_a }

pub count : Semaphore → Result ℕ
count s = do fcet (not s.destructing_a) logic_error; ok s.count_a

-- `count_a++` on a `uint16_t`, and the notification.
pub inc : Semaphore → Result Semaphore
inc s = do
  fcet (not s.destructing_a) logic_error
  ok (record s { count_a = (s.count_a + 1) % 2 ^ 16; convar_a = notify_one s.convar_a })

pub try_dec : Semaphore → Result (Semaphore × Bool)
try_dec s = do
  fcet (not s.destructing_a) logic_error
  ok (if s.count_a == 0 then (s, false) else (record s { count_a = s.count_a - 1 }, true))

-- What `dec` does when its thread has the mutex: it waits, throws, or takes one.
pub data Turn : Type 0 where
  throws : Turn
  waits takes : Semaphore → Turn

pub dec_turn : Semaphore → Turn
dec_turn s =
    if s.destructing_a
    then throws
    else if s.count_a == 0
    then waits (record s { convar_a = record (s.convar_a) { waiting = s.convar_a.waiting + 1 } })
    else takes (record s { count_a = s.count_a - 1 })

-- A notified thread has the mutex again, with so many others notified.
abbrev pub resume : ℕ → Semaphore → Semaphore
resume n s = record s { convar_a = record (s.convar_a) { notified = n } }
