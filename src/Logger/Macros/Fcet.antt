-- ===== src/Logger/Macros/Fcet.antt =====
-- What a failing test in the macro FCET of hdr/bren/Logger.hpp throws.
use brenlib.Prelude.{
  ℕ, ◌≤◌, Bool, true, false, ◌||◌, ltb, if◌then◌else◌, Option, none, some, length, Result, ok, err,
  Error, logic_error, out_of_range, ◌≡◌, refl, arith, inl, inr, Option-cases,
}
use brenlib.Prelude.{fcet as tested}
use brenlib.Prelude.Text.{Text}
use brenlib.Logger.{Logger, Sinks, log}
use brenlib.Logger.Macros.{Leave, ended, returned, thrown, null_pointer, fcet}

-- What the caller of a macro sees: that it goes on, an exception, or undefined behaviour.
pub data Fate : Type 0 where
  goes_on : Fate
  raises : Error → Fate
  undefined : Fate

abbrev pub fate_of : {A : Type 0} → Leave A → Fate
fate_of ended = goes_on
fate_of (returned a) = goes_on
fate_of (thrown e t) = raises e
fate_of null_pointer = undefined

abbrev pub is_given : Option ℕ → Bool
is_given none = false
is_given (some s) = true

-- The exception that FCET names is thrown only if errors are logged, the name of the file can be
-- stripped, and there is somewhere to log to.
abbrev pub raised : Logger → Text → Error → Fate
raised l file exc =
    if ltb l.maxlevel_ 3
    then undefined
    else if ltb (length file) l.strip_
    then raises out_of_range
    else if l.syslog_ || is_given l.stream_
    then raises exc
    else raises logic_error

-- A failing FCET throws what it names only where the logger is set up: it calls on a null pointer if
-- errors are not logged, throws `out_of_range` if more is stripped than the file name has, and
-- `logic_error` if there is nothing to log to.
pub fcet-raised :
    (A : Type 0) (l : Logger) (k : Sinks) (stamp file : Text) (line : ℕ) (exc : Error) (msg : Text)
    → fate_of {A = A} (fcet l k stamp file line false exc msg).1 ≡ raised l file exc
unfolding fcet log
fcet-raised A l k stamp file line exc msg = elim (Option-cases l.stream_) [
  | inl e ↦ ground arith
  | inr (s, e) ↦ ground arith
]

-- The logger is set up for FCET in this file.
pub record IsReady (l : Logger) (file : Text) : Type 0 where
  pub logs_errors : 3 ≤ l.maxlevel_
  pub long_enough : l.strip_ ≤ length file
  pub destination : (l.syslog_ || is_given l.stream_) ≡ true

abbrev pub fate_of_test : Result (Unit {0}) → Fate
fate_of_test (ok u) = goes_on
fate_of_test (err e) = raises e

-- With a logger that is set up, FCET is the test that the components use: it goes on where the
-- condition holds, and throws the exception that it names where it does not.
pub fcet-refines :
    (A : Type 0) (l : Logger) (k : Sinks) (stamp file : Text) (line : ℕ) (cond : Bool) (exc : Error)
    (msg : Text)
    → IsReady l file
    → fate_of {A = A} (fcet l k stamp file line cond exc msg).1 ≡ fate_of_test (tested cond exc)
unfolding fcet
fcet-refines A l k stamp file line true exc msg r = refl
fcet-refines A l k stamp file line false exc msg r =
    ground (arith, fcet-raised A l k stamp file line exc msg)
