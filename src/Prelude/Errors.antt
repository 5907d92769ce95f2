-- ===== src/Prelude/Errors.antt =====
-- A C++ call either returns a value or throws one of the standard exceptions.
use mathlib.Core.Bool.{Bool, true, false}

-- The exceptions that the library throws, by their class in `namespace std`.
pub data Error : Type 0 where
  invalid_argument logic_error out_of_range overflow_error runtime_error system_error : Error

-- What a call gives: its value, or what it threw.
pub data Result {i} (A : Type i) : Type i where
  ok : (value : A) → Result A
  err : (thrown : Error) → Result A

-- FCET(condition, exception, message): throw unless the condition holds.
abbrev pub fcet : Bool → Error → Result (Unit {0})
fcet false thrown = err thrown
fcet true thrown = ok tt

-- Go on with the value, if there is one.
infixl 5 ◌>>=◌
abbrev pub ◌>>=◌ {i j} : {A : Type i} {B : Type j} → Result A → (A → Result B) → Result B
err thrown >>= rest = err thrown
ok value >>= rest = rest value

-- Go on after a test.
infixl 5 ◌>>◌
abbrev pub ◌>>◌ {i} : {B : Type i} → Result (Unit {0}) → Result B → Result B
test >> rest = test >>= λ done. rest
