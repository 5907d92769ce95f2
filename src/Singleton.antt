-- ===== src/Singleton.antt =====
-- hdr/bren/Singleton.hpp, for one class T. Objects are numbered in the order in which `new T()` makes
-- them, `deleted` holds those that were deleted, and `at_exit` counts the calls of `close` that are
-- registered to run at the end of the program. Each method holds the mutex.
pub mod Alive
mod Tests
mod Checks
use brenlib.Prelude.{ℕ, zero, suc, ◌+◌, Bool, true, false, List, [], ◌∷◌, Option, none, some}

pub record Static : Type 0 where
  pub instance_a : Option ℕ
  pub made : ℕ
  pub deleted : List ℕ
  pub at_exit : ℕ

-- The static members before the first call.
abbrev pub initial : Static
initial = record { instance_a = none; made = 0; deleted = []; at_exit = 0 }

-- `instance()`: the members afterwards, and the pointer.
pub get_instance : Static → Static × ℕ
get_instance s = elim (s.instance_a) [
  | none ↦
      (record s { instance_a = some s.made; made = suc s.made; at_exit = suc s.at_exit }, s.made)
  | some p ↦ (s, p)
]

-- `close()`
pub close : Static → Static
close s = elim (s.instance_a) [
  | none ↦ s
  | some p ↦ record s { instance_a = none; deleted = p ∷ s.deleted }
]

-- `is_constructed()`
pub is_constructed : Static → Bool
is_constructed s = elim (s.instance_a) [ none ↦ false | some p ↦ true ]
