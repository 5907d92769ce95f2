-- ===== src/NaiveDate/Calendar.antt =====
-- The calendar of src/NaiveDate.cpp against the Gregorian one.
use brenlib.Prelude.{
  ℕ, zero, suc, refl, ◌+◌, ◌-◌, ◌%◌, ◌≤◌, true, false, ◌&&◌, leb, ◌==◌, if◌then◌else◌, ◌≡◌, ◌≢◌,
  ◌↔◌, ok, arith, Bool, not, Bool-cases, inl, inr, ap, ◌∙◌, ◌||◌, List, [], ◌∷◌, get_elem?, none,
  some,
}
use brenlib.NaiveDate.{date, is_leap, days_of, days, valid, today}

-- The lengths of the months of a common year, with 0 for no month in front.
abbrev pub lengths : List ℕ
lengths = 0 ∷ 31 ∷ 28 ∷ 31 ∷ 30 ∷ 31 ∷ 30 ∷ 31 ∷ 31 ∷ 30 ∷ 31 ∷ 30 ∷ 31 ∷ []

pub data IsLeap (y : ℕ) : Type 0 where
  by_four : y % 4 ≡ 0 → y % 100 ≢ 0 → IsLeap y
  by_four_hundred : y % 400 ≡ 0 → IsLeap y

is_leap-of : (y : ℕ) → IsLeap y → is_leap y ≡ true
unfolding is_leap
is_leap-of y (by_four p q) = ground arith
is_leap-of y (by_four_hundred p) = ground arith

IsLeap-of : (y : ℕ) → is_leap y ≡ true → IsLeap y
unfolding is_leap
IsLeap-of y h = grind (arith, by_four, by_four_hundred)

-- `leap_` decides the Gregorian rule.
pub is_leap-IsLeap : (y : ℕ) → (is_leap y ≡ true) ↔ IsLeap y
unfolding is_leap
is_leap-IsLeap y = (IsLeap-of y, is_leap-of y)

-- The rule of the Gregorian calendar, as a test.
abbrev pub leap_year : ℕ → Bool
leap_year y = ((y % 4 == 0) && not (y % 100 == 0)) || (y % 400 == 0)

is_leap-leap_year : (y : ℕ) → is_leap y ≡ leap_year y
unfolding is_leap
is_leap-leap_year y = ground arith

-- The length of a month by the calendar; 0 for no month.
abbrev pub gregorian : ℕ → ℕ → ℕ
gregorian y m = elim (get_elem? lengths m) [
  | none ↦ 0
  | some n ↦ if (m == 2) && leap_year y then n + 1 else n
]

-- The days of the months, with none for no month: May is one short.
days_of-gregorian :
    (y m : ℕ)
    → (if leb 1 m && leb m 12 then days_of y m else 0) ≡ gregorian y m - (if m == 5 then 1 else 0)
unfolding days_of
days_of-gregorian y zero = refl
days_of-gregorian y (suc zero) = refl
days_of-gregorian y (suc (suc zero)) = rw (is_leap-leap_year y) (ground arith)
days_of-gregorian y (suc (suc (suc zero))) = refl
days_of-gregorian y (suc (suc (suc (suc zero)))) = refl
days_of-gregorian y (suc (suc (suc (suc (suc zero))))) = refl
days_of-gregorian y (suc (suc (suc (suc (suc (suc zero)))))) = refl
days_of-gregorian y (suc (suc (suc (suc (suc (suc (suc zero))))))) = refl
days_of-gregorian y (suc (suc (suc (suc (suc (suc (suc (suc zero)))))))) = refl
days_of-gregorian y (suc (suc (suc (suc (suc (suc (suc (suc (suc zero))))))))) = refl
days_of-gregorian y (suc (suc (suc (suc (suc (suc (suc (suc (suc (suc zero)))))))))) = refl
days_of-gregorian y (suc (suc (suc (suc (suc (suc (suc (suc (suc (suc (suc zero))))))))))) = refl
days_of-gregorian y (suc (suc (suc (suc (suc (suc (suc (suc (suc (suc (suc (suc zero)))))))))))) =
    refl
days_of-gregorian y
      (suc (suc (suc (suc (suc (suc (suc (suc (suc (suc (suc (suc (suc m))))))))))))) =
    ground arith

-- `valid` accepts the dates from 1900 on whose day `days` allows.
pub valid_iff :
    (y m d : ℕ)
    → (valid (date y m d) ≡ true) ↔ ((1900 ≤ y) × (1 ≤ m) × (m ≤ 12) × (1 ≤ d) × (d ≤ days_of y m))
unfolding valid days
valid_iff y m d = ground arith

valid-days_of :
    (y m d : ℕ)
    → valid (date y m d)
      ≡ (leb 1900 y && (leb 1 d && leb d (if leb 1 m && leb m 12 then days_of y m else 0)))
unfolding valid days
valid-days_of y m d = ground arith

-- `valid` accepts just the dates of the Gregorian calendar from the year 1900 on, but for the last day of
-- May.
pub valid-gregorian :
    (y m d : ℕ)
    → valid (date y m d)
      ≡ (leb 1900 y && (leb 1 d && (leb d (gregorian y m) && not ((m == 5) && (d == 31)))))
valid-gregorian y m d =
    valid-days_of y m d
    ∙ (ap (λ n. leb 1900 y && (leb 1 d && leb d n)) (days_of-gregorian y m)
        ∙ elim (Bool-cases (m == 5)) [
          | inl e ↦ let may : m ≡ 5 = ground arith in rw may (ground arith)
          | inr e ↦ ground arith
        ])

-- In no year is May 31 valid, though `today` sets it.
pub may_31 :
    (y : ℕ)
    → 1900 ≤ y
    → y ≤ 65535
    → (valid (date y 5 31) ≡ false) × (today (y - 1900) 4 31 ≡ ok (date y 5 31))
unfolding valid days days_of today
may_31 y = ground arith
