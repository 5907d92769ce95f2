-- ===== src/Run/Status.antt =====
-- The exit status that src/run.cpp and src/Child.cpp report.
use brenlib.Prelude.{
  ℕ, ◌%◌, Bool, true, false, not, ◌==◌, List, Option, none, some, length, Result, ok, Error,
  logic_error, runtime_error, ◌>>◌, fcet, ◌≡◌, refl, arith,
}
use brenlib.Prelude.Text.{Text}
use brenlib.Child.{System, same_process, status_of}
use brenlib.Run.{is_forked, run}

-- A status is reported only for the process that was forked and has exited, and it is of a byte.
pub record IsExact (os : System) (n : ℕ) : Type 0 where
  pub process : ℕ
  pub forked_is : os.forked ≡ some process
  pub waited_is : os.waited ≡ some process
  pub status : ℕ
  pub exited : os.exit_status ≡ some status
  pub byte : n ≡ status % 256

exact_of :
    (forked waited exit_status : Option ℕ) (n : ℕ)
    → (fcet (is_forked forked) runtime_error
        >> (fcet (same_process waited forked) runtime_error >> status_of exit_status))
      ≡ ok n
    → (p : ℕ) × (s : ℕ) × (forked ≡ some p)
      × (waited ≡ some p)
      × (exit_status ≡ some s)
      × (n ≡ s % 256)
exact_of none w x n h = cc
exact_of (some p) none x n h = cc
exact_of (some p) (some q) none n h = absurd (ground arith)
exact_of (some p) (some q) (some s) n h = (p, s, refl, ground arith, refl, ground arith)

after_test : (b : Bool) (e : Error) (k : Result ℕ) (n : ℕ) → (fcet b e >> k) ≡ ok n → k ≡ ok n
after_test true e k n h = h
after_test false e k n h = cc

-- An exit status that `run` reports is that of the process that it forked and waited for, which exited.
pub run-IsExact :
    (os : System) (command : Text) (arguments : List Text) (n : ℕ)
    → run os command arguments ≡ ok n
    → IsExact os n
unfolding run
run-IsExact os command arguments n h =
    let (p, s, f, w, x, b) = exact_of os.forked os.waited os.exit_status n (
      after_test (not (length arguments == 0)) logic_error _ n
        (after_test (not (length command == 0)) logic_error _ n h)) in
    record { process = p; forked_is = f; waited_is = w; status = s; exited = x; byte = b }
