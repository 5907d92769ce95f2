-- ===== src/Run/Tests.antt =====
-- Runs of a command.
use brenlib.Prelude.{
  Bool, List, Option, true, false, [], ◌∷◌, none, some, ok, err, logic_error, runtime_error, ◌≡◌,
  refl, arith,
}
use brenlib.Prelude.Text.{Text, codes}
use brenlib.Child.{System}
use brenlib.Run.{run, in_child}
use brenlib.Run.Status.{IsExact, run-IsExact}
use brenlib.Run.Arguments.{in_child-cells}

abbrev answers : System
answers = record {
  pipe_made = true;
  forked = some 7;
  reads = [];
  waited = some 7;
  exit_status = some 3;
}

runs :
    (run answers (codes "/bin/ls") (codes "ls" ∷ []) ≡ ok 3)
    × (run answers (codes "/bin/ls") [] ≡ err logic_error)
    × (run (record answers { forked = none; waited = none }) (codes "/bin/ls") (codes "ls" ∷ [])
        ≡ err runtime_error)
unfolding run
runs = (refl, refl, refl)

listed : run answers (codes "/bin/ls") (codes "ls" ∷ []) ≡ ok 3
unfolding run
listed = refl

run-IsExact_example : IsExact answers 3
run-IsExact_example = run-IsExact answers (codes "/bin/ls") (codes "ls" ∷ []) 3 listed

-- A program that is not there.
abbrev fails : Text → List (Option Text) → Bool
fails command argv = false

in_child-cells_example :
    in_child fails (codes "/bin/ls") (codes "ls" ∷ (b'-' ∷ b'l' ∷ 0 ∷ b'x' ∷ []) ∷ [])
    ≡ some (err runtime_error)
in_child-cells_example =
    in_child-cells fails (codes "/bin/ls") (codes "ls" ∷ (b'-' ∷ b'l' ∷ 0 ∷ b'x' ∷ []) ∷ [])
      (omega arith)
