-- ===== src/Run.antt =====
-- src/run.cpp: `run` is what the parent process does, `copy_args` how the child copies its arguments. What `fork` and `waitpid` answer is as in Child.
pub mod Arguments
pub mod Status
mod Tests
use brenlib.Prelude.{
  ℕ, zero, suc, ◌+◌, ◌%◌, set, get_elem?, Bool, true, false, not, ◌==◌, if◌then◌else◌, List, [],
  ◌∷◌, Option, none, some, length, replicate, Result, ok, err, Error, logic_error, runtime_error,
  ◌>>=◌, ◌>>◌, fcet,
}
use brenlib.Prelude.Text.{Text}
use brenlib.Child.{System, until_nul, same_process, status_of}

abbrev pub is_forked : Option ℕ → Bool
is_forked none = false
is_forked (some p) = true

-- `run`
pub run : System → Text → List Text → Result ℕ
run os command arguments = do
  fcet (not (length command == 0)) logic_error
  fcet (not (length arguments == 0)) logic_error
  fcet (is_forked os.forked) runtime_error
  fcet (same_process os.waited os.forked) runtime_error
  status_of os.exit_status

-- The loop of the child over the arguments, with its index of 16 bits, in a number of rounds. A cell
-- of `argv` is none before it is written, and where it is null.
pub copy_args : ℕ → ℕ → List Text → List (Option Text) → Option (List (Option Text))
unfolding until_nul
copy_args zero i args argv = none
copy_args (suc rounds) i args argv = elim (get_elem? args i) [
  | none ↦ some (set argv i none)
  | some arg ↦ copy_args rounds ((i + 1) % 65536) args (set argv i (some (until_nul arg)))
]

-- What the child does: `execv` gives the arguments to the program, and if it fails, an exception
-- leaves `run` in the child.
pub in_child :
    (succeeds : Text → List (Option Text) → Bool)
    → Text
    → List Text
    → Option (Result (List (Option Text)))
unfolding copy_args
in_child succeeds command arguments =
    elim (copy_args (suc (length arguments)) 0 arguments
      (replicate (suc (length arguments)) none)) [
        | none ↦ none
        | some argv ↦ if succeeds command argv then some (ok argv) else some (err runtime_error)
      ]
