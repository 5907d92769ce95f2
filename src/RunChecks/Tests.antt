-- ===== src/RunChecks/Tests.antt =====
-- A suite of two tests.
use brenlib.Prelude.{ℕ, suc, Bool, true, false, List, [], ◌∷◌, length, map, ◌≡◌, ◌≢◌, refl, arith}
use brenlib.Prelude.Text.{Text, codes}
use brenlib.RunChecks.Listing.{Ascending, is_among, names_of, listed-Ascending}
use brenlib.RunChecks.{listed, Options, sanitized, chosen, run_checks, finds}

abbrev suite : List (Text × ℕ)
suite = (codes "TableCheck", 1) ∷ (codes "Check", 2) ∷ []

abbrev both : Options
both = record { help = false; listing = false; filters = codes "TAB" ∷ codes "le" ∷ [] }

abbrev all_succeed : List ℕ → Bool
all_succeed tests = true

runs :
    (sanitized (codes "TableCheck") ≡ codes "Table")
    × (sanitized (codes "check") ≡ codes "check")
    × (chosen both suite ≡ 1 ∷ 1 ∷ [])
    × (run_checks all_succeed [] both suite ≡ ([], 0))
    × (run_checks all_succeed [] (record both { listing = true }) suite
        ≡ (codes "Check" ∷ codes "Table" ∷ [], 1))
unfolding sanitized chosen run_checks finds brenlib.Prelude.Maps.insert
runs = (refl, refl, refl, refl, refl)

listed-Ascending_example :
    Ascending (listed suite)
    × ((s : Text) → is_among s (listed suite) ≡ is_among s (names_of suite))
listed-Ascending_example = listed-Ascending suite
