-- ===== src/RunChecks.antt =====
-- src/runchecks.cpp. The options are parsed already; a suite is the names of its tests with numbers for
-- the pointers to them. The map `tests` is walked in the order of insertion, where the code's order is
-- not defined. The runner of CppUnit is a parameter: whether the tests that were added succeed.
pub mod Selected
pub mod Shortened
pub mod Listing
mod Tests
use brenlib.Prelude.{
  ℕ, ◌+◌, ◌-◌, Bool, true, false, not, ◌||◌, ◌&&◌, ltb, leb, ◌==◌, if◌then◌else◌, List, [], ◌∷◌,
  ◌++◌, length, take, drop, map,
}
use brenlib.Prelude.Text.{Text, text_eq, codes}
use brenlib.Prelude.Maps.{insert, text_key}

-- ::tolower in the C locale
pub to_lower : ℕ → ℕ
to_lower c = if leb b'A' c && leb c b'Z' then c + 32 else c

pub lowered : Text → Text
unfolding to_lower
lowered t = map to_lower t

-- The name of a test without "check" at its end.
pub sanitized : Text → Text
unfolding lowered
sanitized name =
    if leb 7 (length name) && text_eq (lowered (drop (length name - 5) name)) (codes "check")
    then take (length name - 5) name
    else name

-- The map `tests`.
pub tests_from : List (Text × ℕ) → List (Text × ℕ) → List (Text × ℕ)
unfolding sanitized
tests_from tests [] = tests
tests_from tests ((name, test) ∷ suite) = tests_from (insert (sanitized name) test tests) suite

abbrev pub starts_with : Text → Text → Bool
starts_with t [] = true
starts_with [] (c ∷ cs) = false
starts_with (d ∷ ds) (c ∷ cs) = (d == c) && starts_with ds cs

-- name.find(fltr) succeeds.
pub finds : Text → Text → Bool
finds [] fltr = starts_with [] fltr
finds (c ∷ cs) fltr = starts_with (c ∷ cs) fltr || finds cs fltr

-- The loop over the filters, for one test.
pub add_matching : Text → ℕ → List Text → List ℕ → List ℕ
add_matching name test [] added = added
add_matching name test (fltr ∷ fltrs) added =
    add_matching name test fltrs (if finds name fltr then added ++ test ∷ [] else added)

-- The loop over the tests.
pub add_tests : List (Text × ℕ) → List Text → List ℕ → List ℕ
add_tests [] fltrs added = added
add_tests ((name, test) ∷ tests) fltrs added =
    add_tests tests fltrs (add_matching (lowered name) test fltrs added)

-- operator< of std::string
abbrev pub text_lt : Text → Text → Bool
text_lt s [] = false
text_lt [] (y ∷ ys) = true
text_lt (x ∷ xs) (y ∷ ys) = ltb x y || ((x == y) && text_lt xs ys)

-- std::ranges::sort on the names
pub insert_name : Text → List Text → List Text
insert_name t [] = t ∷ []
insert_name t (u ∷ us) = if text_lt t u then t ∷ u ∷ us else u ∷ insert_name t us

pub sort : List Text → List Text
unfolding insert_name
sort [] = []
sort (t ∷ ts) = insert_name t (sort ts)

-- The names that are printed for the option "list", a line each.
pub listed : List (Text × ℕ) → List Text
unfolding tests_from sort
listed suite = sort (map (λ item. item.0) (tests_from [] suite))

pub record Options : Type 0 where
  pub help : Bool
  pub listing : Bool
  pub filters : List Text

-- The tests that are added to the runner; the test 0 is the whole suite.
pub chosen : Options → List (Text × ℕ) → List ℕ
unfolding tests_from add_matching add_tests lowered
chosen o suite =
    if length o.filters == 0
    then 0 ∷ []
    else add_tests (tests_from [] suite) (map lowered o.filters) []

-- `runchecks`: the lines that it prints itself, and the exit status. `description` is the text of the
-- options.
pub run_checks :
    (succeeds : List ℕ → Bool) (description : List Text) → Options → List (Text × ℕ) → List Text × ℕ
unfolding chosen listed
run_checks succeeds description o suite =
    if o.help
    then (description, 1)
    else if o.listing
    then (listed suite, 1)
    else if succeeds (chosen o suite)
    then ([], 0)
    else ([], 1)
