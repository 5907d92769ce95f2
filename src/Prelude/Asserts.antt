-- ===== src/Prelude/Asserts.antt =====
-- The assertions of CppUnit, for the unit tests of chk/: a test is what it throws, if it fails.
use mathlib.Core.Bool.{Bool, true, false}
use brenlib.Prelude.Errors.{
  Error, invalid_argument, logic_error, out_of_range, overflow_error, runtime_error, system_error,
  Result, ok, err, fcet,
}

abbrev pub Check : Type 0
Check = Result (Unit {0})

-- CPPUNIT_ASSERT and CPPUNIT_ASSERT_EQUAL; what a failing assertion throws stands for the exception of
-- CppUnit.
abbrev pub assert : Bool → Check
assert holds = fcet holds runtime_error

-- Does a handler for the second class catch an exception of the first one?
abbrev pub is_caught : Error → Error → Bool
is_caught invalid_argument invalid_argument = true
is_caught invalid_argument logic_error = true
is_caught out_of_range out_of_range = true
is_caught out_of_range logic_error = true
is_caught logic_error logic_error = true
is_caught overflow_error overflow_error = true
is_caught overflow_error runtime_error = true
is_caught system_error system_error = true
is_caught system_error runtime_error = true
is_caught runtime_error runtime_error = true
is_caught thrown handled = false

-- CPPUNIT_ASSERT_THROW
abbrev pub assert_throw {ℓ} : {A : Type ℓ} → Error → Result A → Check
assert_throw handled (ok value) = err runtime_error
assert_throw handled (err thrown) = assert (is_caught thrown handled)
