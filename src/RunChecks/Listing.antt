-- ===== src/RunChecks/Listing.antt =====
-- The names that src/runchecks.cpp lists.
use brenlib.Prelude.{
  ℕ, Bool, true, false, ◌||◌, List, [], ◌∷◌, map, ◌≡◌, refl, arith, All, ◌∙◌, Bool-cases, inl, inr,
}
use brenlib.Prelude.Text.{Text, text_eq}
use brenlib.Prelude.Maps.{insert, text_key, text_eq_iff}
use brenlib.RunChecks.Shortened.{shortened, sanitized-shortened}
use brenlib.RunChecks.{sanitized, tests_from, text_lt, insert_name, sort, listed}

-- Is the text one of these?
pub is_among : Text → List Text → Bool
is_among t [] = false
is_among t (u ∷ us) = text_eq t u || is_among t us

-- Each text is before those behind it.
abbrev pub Ascending : List Text → Type 0
Ascending [] = Unit
Ascending (t ∷ ts) = All (λ u. text_lt t u ≡ true) ts × Ascending ts

text_lt_trans : (s t u : Text) → text_lt s t ≡ true → text_lt t u ≡ true → text_lt s u ≡ true
text_lt_trans [] [] u h k = cc
text_lt_trans [] (y ∷ ys) [] h k = cc
text_lt_trans [] (y ∷ ys) (z ∷ zs) h k = refl
text_lt_trans (x ∷ xs) [] u h k = cc
text_lt_trans (x ∷ xs) (y ∷ ys) [] h k = cc
text_lt_trans (x ∷ xs) (y ∷ ys) (z ∷ zs) h k = ground (arith, text_lt_trans xs ys zs)

text_lt_total : (s t : Text) → text_lt s t ≡ false → text_eq s t ≡ false → text_lt t s ≡ true
text_lt_total [] [] h k = cc
text_lt_total [] (y ∷ ys) h k = cc
text_lt_total (x ∷ xs) [] h k = refl
text_lt_total (x ∷ xs) (y ∷ ys) h k = ground (arith, text_lt_total xs ys)

All-text_lt :
    (s t : Text) (us : List Text)
    → text_lt s t ≡ true
    → All (λ u. text_lt t u ≡ true) us
    → All (λ u. text_lt s u ≡ true) us
All-text_lt s t [] h a = tt
All-text_lt s t (u ∷ us) h a = (text_lt_trans s t u h a.0, All-text_lt s t us h a.1)

All-insert_name :
    (s t : Text) (us : List Text)
    → text_lt s t ≡ true
    → All (λ u. text_lt s u ≡ true) us
    → All (λ u. text_lt s u ≡ true) (insert_name t us)
unfolding insert_name
All-insert_name s t [] h a = (h, tt)
All-insert_name s t (u ∷ us) h a = elim (Bool-cases (text_lt t u)) [
  | inl e ↦ rw e (h, a)
  | inr e ↦ rw e (a.0, All-insert_name s t us h a.1)
]

insert_name-Ascending :
    (t : Text) (us : List Text)
    → Ascending us
    → is_among t us ≡ false
    → Ascending (insert_name t us)
unfolding insert_name is_among
insert_name-Ascending t [] a n = (tt, tt)
insert_name-Ascending t (u ∷ us) a n = elim (Bool-cases (text_lt t u)) [
  | inl e ↦ rw e ((e, All-text_lt t u us e a.0), a)
  | inr e ↦ rw e (
    All-insert_name u t us (text_lt_total t u e (ground arith)) a.0,
    insert_name-Ascending t us a.1 (ground arith),
  )
]

is_among-insert_name :
    (s t : Text) (us : List Text) → is_among s (insert_name t us) ≡ (text_eq s t || is_among s us)
unfolding insert_name is_among
is_among-insert_name s t [] = refl
is_among-insert_name s t (u ∷ us) = ground (arith, is_among-insert_name s t us)

is_among-sort : (s : Text) (us : List Text) → is_among s (sort us) ≡ is_among s us
unfolding sort is_among
is_among-sort s [] = refl
is_among-sort s (u ∷ us) = is_among-insert_name s u (sort us) ∙ ground (arith, is_among-sort s us)

-- No text comes twice.
abbrev Distinct : List Text → Type 0
Distinct [] = Unit
Distinct (t ∷ ts) = (is_among t ts ≡ false) × Distinct ts

sort-Ascending : (us : List Text) → Distinct us → Ascending (sort us)
unfolding sort
sort-Ascending [] d = tt
sort-Ascending (u ∷ us) d =
    insert_name-Ascending u (sort us) (sort-Ascending us d.1) (is_among-sort u us ∙ d.0)

abbrev names : List (Text × ℕ) → List Text
names = map (λ item. item.0)

is_among-insert :
    (s t : Text) (v : ℕ) (m : List (Text × ℕ))
    → is_among s (names (insert t v m)) ≡ (text_eq s t || is_among s (names m))
unfolding insert is_among
is_among-insert s t v [] = refl
is_among-insert s t v ((u, w) ∷ m) =
    ground (arith, is_among-insert s t v m, text_eq_iff s t, text_eq_iff u t, text_eq_iff s u)

insert-Distinct :
    (t : Text) (v : ℕ) (m : List (Text × ℕ)) → Distinct (names m) → Distinct (names (insert t v m))
unfolding insert is_among
insert-Distinct t v [] d = (refl, tt)
insert-Distinct t v ((u, w) ∷ m) d =
    ground (arith, is_among-insert u t v m, insert-Distinct t v m, text_eq_iff u t, text_eq_iff t u)

tests_from-Distinct :
    (m suite : List (Text × ℕ)) → Distinct (names m) → Distinct (names (tests_from m suite))
unfolding tests_from
tests_from-Distinct m [] d = d
tests_from-Distinct m ((name, test) ∷ suite) d =
    tests_from-Distinct (insert (sanitized name) test m) suite
      (insert-Distinct (sanitized name) test m d)

-- The names of a suite, shortened.
pub names_of : List (Text × ℕ) → List Text
names_of [] = []
names_of ((name, test) ∷ suite) = shortened name ∷ names_of suite

is_among-tests_from :
    (s : Text) (m suite : List (Text × ℕ))
    → is_among s (names (tests_from m suite))
      ≡ (is_among s (names_of suite) || is_among s (names m))
unfolding tests_from names_of is_among
is_among-tests_from s m [] = refl
is_among-tests_from s m ((name, test) ∷ suite) =
    is_among-tests_from s (insert (sanitized name) test m) suite
    ∙ ground (arith, is_among-insert s (sanitized name) test m, sanitized-shortened name)

-- The names that are listed ascend, so none comes twice, and they are the names of the suite, those of 7
-- bytes at least without a "check" at their end, in letters of either case, and no others.
pub listed-Ascending :
    (suite : List (Text × ℕ))
    → Ascending (listed suite)
      × ((s : Text) → is_among s (listed suite) ≡ is_among s (names_of suite))
unfolding listed is_among
listed-Ascending suite = (
  sort-Ascending (names (tests_from [] suite)) (tests_from-Distinct [] suite tt),
  λ s.
      is_among-sort s (names (tests_from [] suite))
      ∙ (is_among-tests_from s [] suite ∙ ground arith),
)
