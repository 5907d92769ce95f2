-- ===== src/Singleton/Checks.antt =====
-- The unit test of hdr/bren/Singleton.hpp, chk/singleton.cpp.
use brenlib.Prelude.{ℕ, Bool, true, not, Result, ok, none, ◌∷◌, [], ◌≡◌, refl, ◌>>◌}
use brenlib.Prelude.Asserts.{assert}
use brenlib.Singleton.{Static, initial, get_instance, close, is_constructed}

-- `DummySingleton::check()`: the field that the constructor sets, whichever object it is.
abbrev check_dummy : ℕ → Bool
check_dummy ds = true

-- The static members after the test.
pub check_instance : Static → Result Static
check_instance s = do
  assert (not (is_constructed s))
  let made = get_instance s
  assert (is_constructed made.0)
  assert (check_dummy made.1)
  let closed = close made.0
  assert (not (is_constructed closed))
  ok closed

check_instance_passes :
    check_instance initial
    ≡ ok (record { instance_a = none; made = 1; deleted = 0 ∷ []; at_exit = 1 })
unfolding check_instance get_instance close is_constructed
check_instance_passes = refl
