-- ===== src/RunChecks/Selected.antt =====
-- Which tests src/runchecks.cpp runs.
use mathlib.Core.List.{append_assoc, append-nil}
use brenlib.Prelude.{
  ℕ, suc, if◌then◌else◌, List, [], ◌∷◌, ◌++◌, length, map, replicate, ◌≡◌, ◌≢◌, arith, ap, sym, ◌∙◌,
  Bool-cases, inl, inr,
}
use brenlib.Prelude.Text.{Text}
use brenlib.RunChecks.{lowered, tests_from, finds, add_matching, add_tests, Options, chosen}

-- How many filters occur in the name.
pub matches : Text → List Text → ℕ
matches name [] = 0
matches name (fltr ∷ fltrs) =
    let rest = matches name fltrs in if finds name fltr then suc rest else rest

-- Each test as often as filters occur in its lowered name.
pub runs_of : List Text → List (Text × ℕ) → List ℕ
runs_of fltrs [] = []
runs_of fltrs ((name, test) ∷ tests) =
    replicate (matches (lowered name) fltrs) test ++ runs_of fltrs tests

add_matching-replicate :
    (name : Text) (test : ℕ) (fltrs : List Text) (added : List ℕ)
    → add_matching name test fltrs added ≡ added ++ replicate (matches name fltrs) test
unfolding add_matching matches
add_matching-replicate name test [] added = sym (append-nil added)
add_matching-replicate name test (fltr ∷ fltrs) added = elim (Bool-cases (finds name fltr)) [
  | inl e ↦ rw e (
      add_matching-replicate name test fltrs (added ++ test ∷ [])
      ∙ append_assoc added (test ∷ []) (replicate (matches name fltrs) test))
  | inr e ↦ rw e (add_matching-replicate name test fltrs added)
]

add_tests-runs_of :
    (tests : List (Text × ℕ)) (fltrs : List Text) (added : List ℕ)
    → add_tests tests fltrs added ≡ added ++ runs_of fltrs tests
unfolding add_tests runs_of
add_tests-runs_of [] fltrs added = sym (append-nil added)
add_tests-runs_of ((name, test) ∷ tests) fltrs added =
    add_tests-runs_of tests fltrs (add_matching (lowered name) test fltrs added)
    ∙ (ap (λ t. t ++ runs_of fltrs tests) (add_matching-replicate (lowered name) test fltrs added)
        ∙ append_assoc added (replicate (matches (lowered name) fltrs) test) (runs_of fltrs tests))

-- With filters, a test of the map is run as often as filters occur in its name, both lowered: not at
-- all if none does, and twice if two do.
pub chosen-runs_of :
    (o : Options) (suite : List (Text × ℕ))
    → length o.filters ≢ 0
    → chosen o suite ≡ runs_of (map lowered o.filters) (tests_from [] suite)
unfolding chosen
chosen-runs_of o suite h =
    ground (arith, add_tests-runs_of (tests_from [] suite) (map lowered o.filters) [])
