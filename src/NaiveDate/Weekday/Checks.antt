-- ===== src/NaiveDate/Weekday/Checks.antt =====
-- The unit test of src/NaiveDate.cpp, chk/naivedate.cpp, on a clock of the C library.
use brenlib.Prelude.{◌-◌, ◌/◌, ◌%◌, ◌==◌, ℕ, ok, err, runtime_error, ◌≡◌, refl, ◌>>=◌, ◌>>◌}
use brenlib.Prelude.Asserts.{Check, assert}
use brenlib.NaiveDate.{
  NaiveDate, date, unset, set_day, set_month, set_year, valid, days, valid_parts,
}
use brenlib.NaiveDate.Weekday.{Clock, noon, weekday}
use brenlib.NaiveDate.Weekday.Zones.{local_seconds}

-- `weekday_t`
abbrev sun : ℕ
sun = 0

abbrev sat : ℕ
sat = 6

pub check_weekday : Clock → Check
check_weekday clock = do
  in_year ← set_year unset 2025
  in_month ← set_month in_year 11
  first ← set_day in_month 1
  name ← weekday clock first
  assert (sat == name)
  second ← set_day first 2
  next_name ← weekday clock second
  assert (sun == next_name)

-- A zone so many seconds east of UTC.
abbrev pub zone : ℕ → Clock
zone seconds = record {
  mktime = λ tm. local_seconds tm - seconds;
  gmtime = λ t. record (noon unset) { tm_wday = t / 86400 % 7 };
}

-- The test passes 12 hours east of UTC, and fails 13 hours east of it.
check_weekday_zones :
    (check_weekday (zone 43200) ≡ ok tt) × (check_weekday (zone 46800) ≡ err runtime_error)
unfolding check_weekday weekday set_year set_month set_day valid days brenlib.NaiveDate.days_of
check_weekday_zones = (refl, refl)
